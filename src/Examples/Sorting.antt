-- ===== src/Examples/Sorting.antt =====
-- A `qsort`: insertion sort has what is asked of the C library's function.
use mathlib.Core.List.{Perm}
use mathlib.Core.List.Perm
use mcoap.Base.{
  zero, suc, ◌≡◌, ◌⊎◌, inl, inr, refl, true, false, Bool, List, [], ◌∷◌, arith, if◌then◌else◌,
}
use mcoap.Base.Int.{ℤ, pos, negsuc, IsNonpos}
use mcoap.CoapOption.{CoapOption}
use mcoap.OptionsList.{Comparison, IsConsistent, IsOrdered, Qsort}

unfoldable pub is_nonpos : ℤ → Bool
is_nonpos (pos zero) = true
is_nonpos (pos (suc n)) = false
is_nonpos (negsuc n) = true

is_nonpos_lem :
    (z : ℤ) → ((is_nonpos z ≡ true) × IsNonpos z) ⊎ ((is_nonpos z ≡ false) × ¬ IsNonpos z)
unfolding is_nonpos
is_nonpos_lem (pos zero) = inl (refl, omega arith)
is_nonpos_lem (pos (suc n)) = inr (refl, λ h. omega arith)
is_nonpos_lem (negsuc n) = inl (refl, tt)

module _ (compare : Comparison) where
  unfoldable pub insert : CoapOption → List CoapOption → List CoapOption
  insert a [] = a ∷ []
  insert a (b ∷ l) =
      let rest = insert a l in if is_nonpos (compare a b) then a ∷ b ∷ l else b ∷ rest

  unfoldable pub sort : List CoapOption → List CoapOption
  sort [] = []
  sort (a ∷ l) = insert a (sort l)

  insert-perm : (a : CoapOption) (l : List CoapOption) → Perm (insert a l) (a ∷ l)
  unfolding insert
  insert-perm a [] = Perm.rfl
  insert-perm a (b ∷ l) = elim (is_nonpos_lem (compare a b)) [
    | inl h ↦ rw h.0 Perm.rfl
    | inr h ↦ rw h.0 (Perm.trans (Perm.cons b (insert-perm a l)) (Perm.swap a b l))
  ]

  pub sort-perm : (l : List CoapOption) → Perm (sort l) l
  unfolding sort
  sort-perm [] = Perm.rfl
  sort-perm (a ∷ l) = Perm.trans (insert-perm a (sort l)) (Perm.cons a (sort-perm l))

  -- What stands before the list compares as at most its first entry.
  abbrev IsBefore : CoapOption → List CoapOption → Type 0
  IsBefore a [] = Unit {0}
  IsBefore a (b ∷ l) = IsNonpos (compare a b)

  join :
      (a : CoapOption) (l : List CoapOption)
      → IsBefore a l
      → IsOrdered compare l
      → IsOrdered compare (a ∷ l)
  join a [] before o = tt
  join a (b ∷ l) before o = (before, o)

  split :
      (a : CoapOption) (l : List CoapOption)
      → IsOrdered compare (a ∷ l)
      → IsBefore a l × IsOrdered compare l
  split a [] o = (tt, tt)
  split a (b ∷ l) o = o

  insert-IsBefore :
      (a b : CoapOption) (l : List CoapOption)
      → IsNonpos (compare b a)
      → IsBefore b l
      → IsBefore b (insert a l)
  unfolding insert
  insert-IsBefore a b [] h before = h
  insert-IsBefore a b (d ∷ l) h before = elim (is_nonpos_lem (compare a d)) [
    | inl e ↦ rw e.0 h
    | inr e ↦ rw e.0 before
  ]

  module _ (c : IsConsistent compare) where
    above : (a b : CoapOption) → ¬ IsNonpos (compare a b) → IsNonpos (compare b a)
    above a b over = elim (c.total a b) [ inl h ↦ absurd (over h) | inr h ↦ h ]

    insert-IsOrdered :
        (a : CoapOption) (l : List CoapOption)
        → IsOrdered compare l
        → IsOrdered compare (insert a l)
    unfolding insert
    insert-IsOrdered a [] o = tt
    insert-IsOrdered a (b ∷ l) o = elim (is_nonpos_lem (compare a b)) [
      | inl e ↦ rw e.0 (e.1, o)
      | inr e ↦
          let parts = split b l o in
          rw e.0 (
            join b (insert a l) (insert-IsBefore a b l (above a b e.1) parts.0)
              (insert-IsOrdered a l parts.1))
    ]

    pub sort-IsOrdered : (l : List CoapOption) → IsOrdered compare (sort l)
    unfolding sort
    sort-IsOrdered [] = tt
    sort-IsOrdered (a ∷ l) = insert-IsOrdered a (sort l) (sort-IsOrdered l)

abbrev pub qsort : Qsort
qsort = record {
  sort = sort;
  sort-perm = sort-perm;
  sort-IsOrdered = λ compare items c. sort-IsOrdered compare c items;
}
