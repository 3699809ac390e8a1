-- ===== src/Log/Name.antt =====
-- The name of a file without its path.
use mcoap.Base.{
  ℕ, ◌≡◌, ◌⊎◌, inl, inr, refl, ap, true, false, Bool-cases, none, some, [], ◌∷◌, ◌++◌, ◌==◌,
}
use mcoap.CString.{Text, has, strrchr}
use mcoap.Log.{getname}

-- What stands behind the last of a character.
pub record Behind (c : ℕ) (str : Text) : Type 0 where
  pub path : Text
  pub mark : ℕ
  pub name : Text
  pub marks : (c == mark) ≡ true
  pub last : has c name ≡ false
  pub parts : str ≡ path ++ (mark ∷ name)

strrchr-cases :
    (c : ℕ) (str : Text)
    → ((b : Behind c str) × (strrchr c str ≡ some (b.mark ∷ b.name)))
      ⊎ ((has c str ≡ false) × (strrchr c str ≡ none))
strrchr-cases c [] = inr (refl, refl)
strrchr-cases c (d ∷ str) = elim (strrchr-cases c str) [
  | inl (b, e) ↦ inl (
    record {
      path = d ∷ b.path;
      mark = b.mark;
      name = b.name;
      marks = b.marks;
      last = b.last;
      parts = ap (λ l. d ∷ l) b.parts;
    },
    rw e refl,
  )
  | inr (absent, e) ↦ elim (Bool-cases (c == d)) [
    | inl same ↦ inl (
      record { path = []; mark = d; name = str; marks = same; last = absent; parts = refl },
      rw (e, same) refl,
    )
    | inr other ↦ inr (rw (other, absent) refl, rw (e, other) refl)
  ]
]

-- The name that is logged for a file is what stands behind the last slash of its path; where there is no
-- slash, behind the last backslash; and the whole where there is neither.
getname-cases :
    (fname : Text)
    → ((b : Behind b'/' fname) × (getname fname ≡ b.name))
      ⊎ ((has b'/' fname ≡ false) × ((b : Behind b'\\' fname) × (getname fname ≡ b.name)))
      ⊎ ((has b'/' fname ≡ false) × (has b'\\' fname ≡ false) × (getname fname ≡ fname))
unfolding getname
getname-cases fname = elim (strrchr-cases b'/' fname) [
  | inl (b, e) ↦ inl (b, rw (getname, e) refl)
  | inr (slash, e) ↦ elim (strrchr-cases b'\\' fname) [
    | inl (b, e') ↦ inr (inl (slash, (b, rw (getname, e, e') refl)))
    | inr (backslash, e') ↦ inr (inr (slash, backslash, rw (getname, e, e') refl))
  ]
]
