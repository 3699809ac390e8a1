-- ===== src/OptionsList.antt =====
-- mcoap/mc_options_list.c: lists of options in memory. Writing them into a buffer is in `Encode`,
-- reading them from one in `Decode`.
pub mod Encode
pub mod Decode
pub mod Lookup
pub mod Merge
pub mod Sorted
use mathlib.Core.List.{Perm}
use mathlib.Core.Option
use mcoap.Base.{
  ℕ, zero, suc, ◌+◌, ◌-◌, ◌≤◌, ◌≡◌, ◌⊎◌, Option, none, some, List, [], ◌∷◌, ◌++◌, length, take,
  drop, leb, ltb, ◌==◌, if◌then◌else◌, ◌>>=◌, add32,
}
use mcoap.Base.Int.{ℤ, pos, negsuc, sub_ℕ, IsNonpos}
use mcoap.CoapOption
use mcoap.CoapOption.{CoapOption}

-- `mc_options_list_t`
pub record OptionsList : Type 0 where
  pub noptions : ℕ
  pub options : Option (List CoapOption)

unfoldable pub alloc : OptionsList
alloc = record { noptions = 0; options = none }

-- The entries of the array that a pointer points to.
abbrev pub entries_of : Option (List CoapOption) → List CoapOption
entries_of none = []
entries_of (some entries) = entries

-- `if (bpos == 0) bpos = &apos;`
abbrev pub position : Option ℕ → ℕ
position none = 0
position (some bpos) = bpos

unfoldable pub deinit : OptionsList → OptionsList
deinit list = record list { noptions = 0; options = none }

unfoldable pub compare_options : CoapOption → CoapOption → ℤ
compare_options left right = sub_ℕ left.option_num right.option_num

abbrev pub Comparison : Type 0
Comparison = CoapOption → CoapOption → ℤ

-- What `qsort` asks of a comparison function: a total preorder.
pub record IsConsistent (compare : Comparison) : Type 0 where
  pub total : (a b : CoapOption) → IsNonpos (compare a b) ⊎ IsNonpos (compare b a)
  pub transitive :
      (a b c : CoapOption)
      → IsNonpos (compare a b)
      → IsNonpos (compare b c)
      → IsNonpos (compare a c)

-- Each entry compares as at most the one behind it.
abbrev pub IsOrdered : Comparison → List CoapOption → Type 0
IsOrdered compare [] = Unit {0}
IsOrdered compare (a ∷ []) = Unit {0}
IsOrdered compare (a ∷ b ∷ l) = IsNonpos (compare a b) × IsOrdered compare (b ∷ l)

-- The C library's `qsort`: it orders the entries of an array. Nothing is said of the order of entries
-- that compare as equal.
pub record Qsort : Type 0 where
  pub sort : Comparison → List CoapOption → List CoapOption
  pub sort-perm : (compare : Comparison) (items : List CoapOption) → Perm (sort compare items) items
  pub sort-IsOrdered :
      (compare : Comparison) (items : List CoapOption)
      → IsConsistent compare
      → IsOrdered compare (sort compare items)

-- The loop that copies the first entries of an array into fresh ones.
unfoldable pub copy_entries : ℕ → List CoapOption → Option (List CoapOption)
unfolding CoapOption.alloc
copy_entries zero options = some []
copy_entries (suc n) [] = none
copy_entries (suc n) (from ∷ options) = do
  copied ← CoapOption.copy_to (some CoapOption.alloc) from
  to ← copied
  rest ← copy_entries n options
  some (to ∷ rest)

module _ (qsort : Qsort) where
  unfoldable pub options_sort : ℕ → List CoapOption → List CoapOption
  options_sort count items = qsort.sort compare_options (take count items) ++ drop count items

  unfoldable pub init : OptionsList → ℕ → Option (List CoapOption) → OptionsList
  init list noptions options = record list {
    noptions = noptions;
    options = Option.map (options_sort noptions) options;
  }

  -- The variable arguments are a list; an argument that was not passed is a fault.
  unfoldable pub vinit : OptionsList → ℕ → List CoapOption → Option OptionsList
  vinit list noptions arguments =
      if leb noptions (length arguments)
      then some (init list noptions (some (take noptions arguments)))
      else none

  unfoldable pub copy : Option OptionsList → Option (Option OptionsList)
  copy none = some none
  copy (some list) = do
    options ← copy_entries list.noptions (entries_of list.options)
    some (some (init alloc list.noptions (some options)))

  -- Where the sum of the counts wraps, the entries go past the array: a fault.
  unfoldable pub merge : Option OptionsList → Option OptionsList → Option (Option OptionsList)
  merge none list2 = copy list2
  merge (some list1) none = copy (some list1)
  merge (some list1) (some list2) = do
    first ← copy_entries list1.noptions (entries_of list1.options)
    second ← copy_entries list2.noptions (entries_of list2.options)
    if ltb (list1.noptions + list2.noptions) 4294967296
        then some (some (init alloc (add32 list1.noptions list2.noptions) (some (first ++ second))))
        else none

unfoldable pub buffer_size_loop : ℕ → List CoapOption → ℕ → ℕ → Option ℕ
buffer_size_loop zero options prev_option_num size = some size
buffer_size_loop (suc n) [] prev_option_num size = none
buffer_size_loop (suc n) (current ∷ options) prev_option_num size =
    buffer_size_loop n options current.option_num
      (add32 size (CoapOption.buffer_size current prev_option_num))

unfoldable pub buffer_size : Option OptionsList → Option ℕ
unfolding buffer_size_loop
buffer_size none = some 0
buffer_size (some list) = buffer_size_loop list.noptions (entries_of list.options) 0 0

-- `rest` is the array from `iopt` on, `n` what is left of `noptions`. `iopt` is an `int`: past 2 ^ 31 - 1
-- it overflows, and an entry that a `start` from there on names is outside the array, both faults.
unfoldable pub get_index_loop : ℕ → List CoapOption → ℕ → ℕ → Option ℤ
get_index_loop zero rest iopt optnum = some (negsuc 0)
get_index_loop (suc n) [] iopt optnum = none
get_index_loop (suc n) (option ∷ rest) iopt optnum =
    let more = get_index_loop n rest (suc iopt) optnum in
    if option.option_num == optnum
    then (if ltb iopt 2147483648 then some (pos iopt) else none)
    else if ltb iopt 2147483647
    then more
    else none

unfoldable pub get_index : OptionsList → ℕ → ℕ → Option ℤ
unfolding get_index_loop
get_index list start optnum =
    get_index_loop (list.noptions - start) (drop start (entries_of list.options)) start optnum

-- The pointer into the array is an offset there.
unfoldable pub at : OptionsList → ℤ → Option ℕ
at list (negsuc n) = none
at list (pos index) = if ltb list.noptions index then none else some index

unfoldable pub get : OptionsList → ℕ → Option (Option ℕ)
get list num = get_index list 0 num >>= (λ index. some (at list index))
