-- ===== src/Programs/Args/Scan.antt =====
-- What `getport` finds.
use mcoap.Base.{
  ℕ, ◌≡◌, inl, inr, ◌⊎◌, refl, ap, true, false, none, some, List, [], ◌∷◌, ◌++◌, All, Bool-cases,
  get_elem?, to_u16, ◌==◌, if◌then◌else◌, length,
}
use mcoap.Base.Int.{ℤ, pos}
use mcoap.CString.{Text, is_equal, atoi, int_to_u32}
use mcoap.Programs.Args.{option_value, getport}

-- None of the arguments is the flag.
abbrev pub IsAbsent : Text → List Text → Type 0
IsAbsent flag args = All (λ arg. is_equal flag arg ≡ false) args

-- The first argument that is the flag, with what stands before it, and the value behind it.
pub record Flagged (flag : Text) (args : List Text) : Type 0 where
  pub before : List Text
  pub mark : Text
  pub value : Text
  pub after : List Text
  pub absent : IsAbsent flag before
  pub marks : is_equal flag mark ≡ true
  pub parts : args ≡ before ++ (mark ∷ value ∷ after)

-- The flag is the last argument, and no other.
pub record IsTrailing (flag : Text) (args : List Text) : Type 0 where
  pub before : List Text
  pub mark : Text
  pub absent : IsAbsent flag before
  pub marks : is_equal flag mark ≡ true
  pub parts : args ≡ before ++ (mark ∷ [])

flagged_after :
    {flag : Text} {args : List Text} (arg : Text)
    → is_equal flag arg ≡ false
    → Flagged flag args
    → Flagged flag (arg ∷ args)
flagged_after arg e f = record {
  before = arg ∷ f.before;
  mark = f.mark;
  value = f.value;
  after = f.after;
  absent = (e, f.absent);
  marks = f.marks;
  parts = ap (λ l. arg ∷ l) f.parts;
}

IsTrailing-cons :
    {flag : Text} {args : List Text} (arg : Text)
    → is_equal flag arg ≡ false
    → IsTrailing flag args
    → IsTrailing flag (arg ∷ args)
IsTrailing-cons arg e t = record {
  before = arg ∷ t.before;
  mark = t.mark;
  absent = (e, t.absent);
  marks = t.marks;
  parts = ap (λ l. arg ∷ l) t.parts;
}

option_value-cases :
    (flag : Text) (args : List Text)
    → ((f : Flagged flag args) × (option_value flag args ≡ some f.value))
      ⊎ ((option_value flag args ≡ none) × (IsTrailing flag args ⊎ IsAbsent flag args))
unfolding option_value flagged_after
option_value-cases flag [] = inr (refl, inr tt)
option_value-cases flag (arg ∷ []) = elim (Bool-cases (is_equal flag arg)) [
  | inl same ↦
      inr (refl, inl (record { before = []; mark = arg; absent = tt; marks = same; parts = refl }))
  | inr other ↦ inr (refl, inr (other, tt))
]
option_value-cases flag (arg ∷ value ∷ args) = elim (Bool-cases (is_equal flag arg)) [
  | inl same ↦ inl (
    record {
      before = [];
      mark = arg;
      value = value;
      after = args;
      absent = tt;
      marks = same;
      parts = refl;
    },
    rw same refl,
  )
  | inr other ↦ elim (option_value-cases flag (value ∷ args)) [
    | inl (f, e) ↦ inl (flagged_after arg other f, rw (other, e) refl)
    | inr (e, inl t) ↦ inr (rw (other, e) refl, inl (IsTrailing-cons arg other t))
    | inr (e, inr absent) ↦ inr (rw (other, e) refl, inr (other, absent))
  ]
]

last_lem :
    (name : Text) (before : List Text) (mark : Text)
    → get_elem? (name ∷ (before ++ (mark ∷ []))) (length (before ++ (mark ∷ []))) ≡ some mark
last_lem name [] mark = refl
last_lem name (x ∷ before) mark = last_lem x before mark

last_absent :
    (flag name : Text) (args : List Text)
    → IsAbsent flag (name ∷ args)
    → (last : Text) × (get_elem? (name ∷ args) (length args) ≡ some last)
      × (is_equal flag last ≡ false)
last_absent flag name [] (e, rest) = (name, refl, e)
last_absent flag name (arg ∷ args) (e, rest) = last_absent flag arg args rest

-- `getport` takes the number behind the first argument that is the flag for the port, modulo 2 ^ 16, and
-- fails if that is 0. If the flag is the last argument and no other it fails, and the port stays; if no
-- argument is the flag the port stays. The program's name is not the flag.
pub getport-cases :
    (wild : Text → ℤ) (flag name : Text) (args : List Text) (port : ℕ)
    → is_equal flag name ≡ false
    → ((f : Flagged flag args) × (getport wild flag (name ∷ args) port
          ≡ some (
            if to_u16 (int_to_u32 (atoi wild f.value)) == 0 then pos 1 else pos 0,
            to_u16 (int_to_u32 (atoi wild f.value)),
          )))
      ⊎ (IsTrailing flag args × (getport wild flag (name ∷ args) port ≡ some (pos 1, port)))
      ⊎ (IsAbsent flag args × (getport wild flag (name ∷ args) port ≡ some (pos 0, port)))
unfolding getport
getport-cases wild flag name args port other = elim (option_value-cases flag args) [
  | inl (f, e) ↦ inl (f, rw (getport, e) refl)
  | inr (e, inl t) ↦
      let last : get_elem? (name ∷ args) (length args) ≡ some t.mark =
        rw t.parts (last_lem name t.before t.mark) in
      inr (inl (t, rw (getport, e, last, t.marks) refl))
  | inr (e, inr absent) ↦
      let (last, there, differs) = last_absent flag name args (other, absent) in
      inr (inr (absent, rw (getport, e, there, differs) refl))
]
