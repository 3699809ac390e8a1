-- ===== src/OptionsList/Lookup.antt =====
-- Looking up an option by its number.
use mcoap.Base.{
  ℕ, suc, ◌+◌, ◌-◌, ◌≤◌, ◌<◌, ◌≡◌, ◌≢◌, ◌⊎◌, inl, inr, refl, ap, ◌∙◌, none, some, List, [], ◌∷◌,
  ◌++◌, arith, length, All, length-append, le→ltb, ℕ_discrete,
}
use mcoap.Base.Int.{pos, negsuc}
use mcoap.CoapOption.{CoapOption}
use mcoap.OptionsList.{OptionsList, get_index_loop, get_index, at, get}

-- The first option with the number, with what stands before and behind it.
pub record IsFirst (num : ℕ) (options : List CoapOption) (index : ℕ) : Type 0 where
  pub before : List CoapOption
  pub found : CoapOption
  pub behind : List CoapOption
  pub split : options ≡ before ++ (found ∷ behind)
  pub named : found.option_num ≡ num
  pub others : All (λ o. o.option_num ≢ num) before
  pub place : index ≡ length before

loop_lem :
    (num : ℕ) (options : List CoapOption) (iopt : ℕ)
    → iopt + length options < 2147483648
    → ((index : ℕ) × IsFirst num options index
        × (get_index_loop (length options) options iopt num ≡ some (pos (iopt + index))))
      ⊎ (All (λ o. o.option_num ≢ num) options
          × (get_index_loop (length options) options iopt num ≡ some (negsuc 0)))
unfolding get_index_loop
loop_lem num [] iopt small = inr (tt, refl)
loop_lem num (option ∷ options) iopt small = elim (ℕ_discrete option.option_num num) [
  | yes e ↦ inl (
    0,
    record {
      before = [];
      found = option;
      behind = options;
      split = refl;
      named = e;
      others = tt;
      place = refl;
    },
    ground arith,
  )
  | no ne ↦ elim (loop_lem num options (suc iopt) (omega arith)) [
    | inl (index, f, e) ↦ inl (
      suc index,
      record {
        before = option ∷ f.before;
        found = f.found;
        behind = f.behind;
        split = ap (λ l. option ∷ l) f.split;
        named = f.named;
        others = (ne, f.others);
        place = ap suc f.place;
      },
      ground arith,
    )
    | inr (none_there, e) ↦ inr ((ne, none_there), ground arith)
  ]
]

-- `mc_options_list_get` returns the first option of the list with the number asked for, or null if no
-- option has it, in a list of less than 2 ^ 31 options: the index is an `int`.
pub get-IsFirst :
    (list : OptionsList) (options : List CoapOption) (num : ℕ)
    → list.options ≡ some options
    → list.noptions ≡ length options
    → length options < 2147483648
    → ((index : ℕ) × IsFirst num options index × (get list num ≡ some (some index)))
      ⊎ (All (λ o. o.option_num ≢ num) options × (get list num ≡ some none))
unfolding get get_index at
get-IsFirst list options num e n small =
    let count : list.noptions - 0 ≡ length options = omega arith in
    elim (loop_lem num options 0 (omega arith)) [
      | inl (index, f, found) ↦
          let start : 0 + index ≡ index = omega arith in
          let inside : index ≤ length options =
            omega
              (arith, f.place, ap length f.split, length-append f.before (f.found ∷ f.behind)) in
          inl (
            index,
            f,
            rw
                (
                  count,
                  e,
                  found ∙ ap (λ k. some (pos k)) start,
                  le→ltb list.noptions index (omega arith),
                )
                refl,
          )
      | inr (others, missing) ↦ inr (others, rw (count, e, missing) refl)
    ]
