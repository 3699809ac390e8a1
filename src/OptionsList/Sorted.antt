-- ===== src/OptionsList/Sorted.antt =====
-- The order in which `mc_options_list_init` leaves the options.
use mathlib.Core.Logic.{∥∥₁_elim}
use mathlib.Core.List.{Permᴰ}
use mcoap.Base.{
  ℕ, ◌≤◌, ◌<◌, ◌≡◌, ◌⊎◌, inl, inr, refl, ◌∙◌, Bool, true, false, ◌&&◌, List, [], ◌∷◌, arith, length,
  dec_le, All, block_of, ltb, leb, IsU16,
}
use mcoap.Base.Int.{IsNonpos}
use mcoap.CoapOption.{CoapOption}
use mcoap.OptionsList.{Qsort, IsConsistent, IsOrdered, compare_options}
use mcoap.OptionsList.Encode.Format.{IsWritable, AllWritable}

-- An option that the format can hold, in a place that its number allows.
pub record IsFit (option : CoapOption) : Type 0 where
  pub number : IsU16 option.option_num
  pub short : IsU16 option.value.nbytes
  pub held : option.value.nbytes ≤ length (block_of option.value.bytes)

is_fit : CoapOption → Bool
is_fit option =
    ltb option.option_num 65536
    && ltb option.value.nbytes 65536
    && leb option.value.nbytes (length (block_of option.value.bytes))

all_fit : List CoapOption → Bool
all_fit [] = true
all_fit (option ∷ options) = is_fit option && all_fit options

is_fit-IsFit : (option : CoapOption) → IsFit option → is_fit option ≡ true
unfolding is_fit
is_fit-IsFit option f = ground (arith, f.number, f.short, f.held)

IsFit-is_fit : (option : CoapOption) → is_fit option ≡ true → IsFit option
unfolding is_fit
IsFit-is_fit option e = record {
  number = ground (arith, e);
  short = ground (arith, e);
  held = ground (arith, e);
}

all_fit-All : (options : List CoapOption) → All IsFit options → all_fit options ≡ true
unfolding all_fit
all_fit-All [] f = refl
all_fit-All (option ∷ options) f = rw (is_fit-IsFit option f.0, all_fit-All options f.1) refl

and_comm : (a b c : Bool) → (a && (b && c)) ≡ (b && (a && c))
and_comm true true c = refl
and_comm true false c = refl
and_comm false true c = refl
and_comm false false c = refl

all_fit-Perm : (xs ys : List CoapOption) → Permᴰ xs ys → all_fit xs ≡ all_fit ys
unfolding all_fit
all_fit-Perm _ _ Permᴰ.nil = refl
all_fit-Perm _ _ (Permᴰ.cons {a = a} {b = b} {l₁ = l₁} {l₂ = l₂} e d) =
    rw (e, all_fit-Perm l₁ l₂ d) refl
all_fit-Perm _ _ (Permᴰ.swap {a = a} {b = b} {a' = a'} {b' = b'} {l = l} e e') =
    rw (e, e') (and_comm (is_fit b') (is_fit a') (all_fit l))
all_fit-Perm _ _ (Permᴰ.trans {l₁ = l₁} {l₂ = l₂} {l₃ = l₃} d d') =
    all_fit-Perm l₁ l₂ d ∙ all_fit-Perm l₂ l₃ d'

length-Perm : (xs ys : List CoapOption) → Permᴰ xs ys → length xs ≡ length ys
length-Perm _ _ Permᴰ.nil = refl
length-Perm _ _ (Permᴰ.cons {l₁ = l₁} {l₂ = l₂} e d) = omega (arith, length-Perm l₁ l₂ d)
length-Perm _ _ (Permᴰ.swap e e') = refl
length-Perm _ _ (Permᴰ.trans {l₁ = l₁} {l₂ = l₂} {l₃ = l₃} d d') =
    length-Perm l₁ l₂ d ∙ length-Perm l₂ l₃ d'

compare_iff : (a b : CoapOption) → (IsNonpos (compare_options a b)) ⊎ (b.option_num < a.option_num)
unfolding compare_options
compare_iff a b = ground arith

compare_le : (a b : CoapOption) → IsNonpos (compare_options a b) → a.option_num ≤ b.option_num
unfolding compare_options
compare_le a b h = ground (arith, h)

compare-IsNonpos : (a b : CoapOption) → a.option_num ≤ b.option_num → IsNonpos (compare_options a b)
unfolding compare_options
compare-IsNonpos a b h = ground (arith, h)

compare-IsConsistent : IsConsistent compare_options
compare-IsConsistent = record {
  total = λ a b. elim (dec_le a.option_num b.option_num) [
    | yes h ↦ inl (compare-IsNonpos a b h)
    | no h ↦ inr (compare-IsNonpos b a (omega arith))
  ];
  transitive =
      λ a b c h h'. compare-IsNonpos a c (omega (arith, compare_le a b h, compare_le b c h'));
}

IsAbove : ℕ → List CoapOption → Type 0
IsAbove prev [] = Unit {0}
IsAbove prev (option ∷ options) = prev ≤ option.option_num

zero-IsAbove : (options : List CoapOption) → IsAbove 0 options
unfolding IsAbove
zero-IsAbove [] = tt
zero-IsAbove (option ∷ options) = omega arith

and_true : (a b : Bool) → (a && b) ≡ true → (a ≡ true) × (b ≡ true)
and_true true b e = (refl, e)
and_true false b e = absurd cc

writable :
    (prev : ℕ) (option : CoapOption)
    → prev ≤ option.option_num
    → is_fit option ≡ true
    → IsWritable prev option
writable prev option above e =
    let f = IsFit-is_fit option e in
    record { rising = above; number = f.number; short = f.short; held = f.held }

ordered-AllWritable :
    (prev : ℕ) (options : List CoapOption)
    → IsAbove prev options
    → IsOrdered compare_options options
    → all_fit options ≡ true
    → AllWritable prev options
unfolding IsAbove all_fit
ordered-AllWritable prev [] above ordered fit = tt
ordered-AllWritable prev (a ∷ []) above ordered fit =
    let (here, rest) = and_true (is_fit a) true fit in (writable prev a above here, tt)
ordered-AllWritable prev (a ∷ b ∷ l) above ordered fit =
    let (here, rest) = and_true (is_fit a) (all_fit (b ∷ l)) fit in
    (
      writable prev a above here,
      ordered-AllWritable a.option_num (b ∷ l) (compare_le a b ordered.0) ordered.1 rest,
    )

-- Options that the format can hold one by one can be written in the order of `qsort`, which keeps their
-- number.
pub sort-AllWritable :
    (qsort : Qsort) (options : List CoapOption)
    → All IsFit options
    → AllWritable 0 (qsort.sort compare_options options)
      × (length (qsort.sort compare_options options) ≡ length options)
sort-AllWritable qsort options f =
    let perm = qsort.sort-perm compare_options options in
    let sorted : List CoapOption = qsort.sort compare_options options in
    let same : all_fit sorted ≡ all_fit options =
      ∥∥₁_elim perm (hlevel) (all_fit-Perm sorted options) in
    let fit : all_fit sorted ≡ true = same ∙ all_fit-All options f in
    (
      ordered-AllWritable 0 sorted (zero-IsAbove sorted)
          (qsort.sort-IsOrdered compare_options options compare-IsConsistent) fit,
      ∥∥₁_elim perm (hlevel) (length-Perm sorted options),
    )
