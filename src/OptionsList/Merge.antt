-- ===== src/OptionsList/Merge.antt =====
-- Copying and merging lists of options.
use mcoap.Base.{
  ℕ, ◌+◌, ◌≤◌, ◌<◌, ◌≡◌, refl, sym, some, List, [], ◌∷◌, ◌++◌, arith, length, All, map, block_of,
  read_at_lem, add32, lt→ltb, length-append, length-map, take-length, drop-all, append-nil,
}
use mcoap.CoapOption
use mcoap.CoapOption.{CoapOption}
use mcoap.OptionsList.{
  OptionsList, Qsort, compare_options, alloc, copy_entries, options_sort, init, copy, merge,
}
use mcoap.OptionsList.Decode.Readable.{owned}

-- A value that lies within its block.
abbrev pub IsHeld : CoapOption → Type 0
IsHeld option = option.value.nbytes ≤ length (block_of option.value.bytes)

entries_lem :
    (options : List CoapOption)
    → All IsHeld options
    → copy_entries (length options) options ≡ some (map owned options)
unfolding copy_entries CoapOption.copy_to CoapOption.copy_uint8 CoapOption.init CoapOption.alloc
entries_lem [] held = refl
entries_lem (option ∷ options) held =
    rw
      (
        read_at_lem (block_of option.value.bytes) 0 option.value.nbytes (omega (arith, held.0)),
        entries_lem options held.1,
      )
      refl

sort_lem :
    (qsort : Qsort) (count : ℕ) (entries : List CoapOption)
    → count ≡ length entries
    → options_sort qsort count entries ≡ qsort.sort compare_options entries
unfolding options_sort
sort_lem qsort count entries e =
    rw (e, take-length entries, drop-all (length entries) entries (omega arith), append-nil) refl

module _ (qsort : Qsort) (list1 : OptionsList) (options1 : List CoapOption)
    (entries1 : list1.options ≡ some options1) (count1 : list1.noptions ≡ length options1)
    (held1 : All IsHeld options1) where
  -- `mc_options_list_copy` returns a new list of the same options, each with a block of its own, in the
  -- order of `qsort`, if each value lies within its block.
  pub copy-owned :
      copy qsort (some list1)
      ≡ some (
          some (record {
            noptions = length options1;
            options = some (qsort.sort compare_options (map owned options1));
          }))
  unfolding copy init alloc
  copy-owned =
      rw
        (
          entries1,
          count1,
          entries_lem options1 held1,
          sort_lem qsort (length options1) (map owned options1) (sym (length-map options1 owned)),
        )
        refl

  -- `mc_options_list_merge` of two lists returns a new list of the options of both, each with a block
  -- of its own, in the order of `qsort`, if each value lies within its block and there are less than
  -- 2 ^ 32 options.
  pub merge-owned :
      (list2 : OptionsList) (options2 : List CoapOption)
      → list2.options ≡ some options2
      → list2.noptions ≡ length options2
      → All IsHeld options2
      → length options1 + length options2 < 4294967296
      → merge qsort (some list1) (some list2)
        ≡ some (
            some (record {
              noptions = length options1 + length options2;
              options =
                  some (qsort.sort compare_options (map owned options1 ++ map owned options2));
            }))
  unfolding merge init alloc
  merge-owned list2 options2 entries2 count2 held2 small =
      let total : add32 (length options1) (length options2) ≡ length options1 + length options2 =
        omega arith in
      let n : length options1 + length options2
          ≡ length (map owned options1 ++ map owned options2) =
        omega (
          arith,
          length-append (map owned options1) (map owned options2),
          length-map options1 owned,
          length-map options2 owned,
        ) in
      rw
        (
          entries1,
          count1,
          entries2,
          count2,
          entries_lem options1 held1,
          entries_lem options2 held2,
          total,
          lt→ltb (length options1 + length options2) 4294967296 small,
          sort_lem qsort (length options1 + length options2)
              (map owned options1 ++ map owned options2) n,
        )
        refl
