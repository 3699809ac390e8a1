-- ===== src/Programs/Args/Pack.antt =====
-- What `packargs` leaves.
use mcoap.Base.{
  ℕ, zero, suc, ◌+◌, ◌≡◌, ◌<◌, ◌≤◌, inl, inr, refl, sym, ap, ◌∙◌, subst, true, false, some, List,
  [], ◌∷◌, ◌++◌, Bool-cases, All, arith, length, take, length-append, lt→ltb, le→ltb, get_elem?,
  get_elem?-append, take-append_eq, append-nil, append_assoc, if◌then◌else◌,
}
use mcoap.Base.Run.{ok}
use mcoap.CString.{Text, is_equal}
use mcoap.Programs.Args.{set_elem, port_flag, packargs_loop, packargs}

-- The arguments without the flag for the port and what stands behind it.
abbrev pub others : List Text → List Text
others [] = []
others (arg ∷ []) = if is_equal port_flag arg then [] else arg ∷ []
others (arg ∷ value ∷ args) =
    let skipped = others args in
    let kept = others (value ∷ args) in if is_equal port_flag arg then skipped else arg ∷ kept

-- Without the flag nothing is left out.
pub others_all :
    (args : List Text) → All (λ arg. is_equal port_flag arg ≡ false) args → others args ≡ args
others_all [] absent = refl
others_all (arg ∷ []) absent = rw absent.0 refl
others_all (arg ∷ value ∷ args) absent =
    rw absent.0 (ap (λ l. arg ∷ l) (others_all (value ∷ args) absent.1))

set_elem-append :
    (front : List Text) (old : Text) (back : List Text) (new : Text)
    → set_elem (front ++ (old ∷ back)) (length front) new ≡ some (front ++ (new ∷ back))
set_elem-append [] old back new = refl
set_elem-append (x ∷ front) old back new = rw (set_elem-append front old back new) refl

-- The loop's result, where `front` is packed and `ys` will be.
abbrev Packed : ℕ → List Text → ℕ → ℕ → List Text → List Text → Type 0
Packed fuel argv iarg idest front ys =
    (argv' : List Text) × (packargs_loop fuel argv iarg idest ≡ ok (idest + length ys, argv'))
    × (take (idest + length ys) argv' ≡ front ++ ys)
    × (length argv' ≡ length argv)

ended :
    (fuel : ℕ) (argv front mid : List Text) (iarg idest : ℕ)
    → argv ≡ front ++ mid
    → length argv ≤ iarg
    → idest ≡ length front
    → Packed (suc fuel) argv iarg idest front []
unfolding packargs_loop
ended fuel argv front mid iarg idest e past d =
    let stays : idest + length {A = Text} [] ≡ idest = omega arith in
    (
      argv,
      rw (le→ltb iarg (length argv) past) (ap (λ k. ok (k, argv)) (sym stays)),
      rw (e, d)
          (take-append_eq (length front + 0) front mid (omega arith) ∙ sym (append-nil front)),
      refl,
    )

shifted :
    (mid : List Text) (arg : Text)
    → (m2 : Text) × (mid2 : List Text) × (m2 ∷ mid2 ≡ mid ++ (arg ∷ []))
shifted [] arg = (arg, [], refl)
shifted (m ∷ mid) arg = (m, mid ++ (arg ∷ []), refl)

module _ (argv front : List Text) (m : Text) (mid : List Text) (arg : Text) (more : List Text)
    (e : argv ≡ front ++ ((m ∷ mid) ++ (arg ∷ more))) (iarg idest : ℕ)
    (i : iarg ≡ length front + suc (length mid)) (d : idest ≡ length front) where
  count_lem : length argv ≡ iarg + suc (length more)
  count_lem = omega (
    arith,
    i,
    ap length e,
    length-append front ((m ∷ mid) ++ (arg ∷ more)),
    length-append mid (arg ∷ more),
  )

  here_lem : get_elem? argv iarg ≡ some arg
  here_lem =
      rw (e, ← append_assoc front (m ∷ mid) (arg ∷ more), i)
        (subst (λ k. get_elem? ((front ++ (m ∷ mid)) ++ (arg ∷ more)) k ≡ some arg)
          (length-append front (m ∷ mid)) (get_elem?-append (front ++ (m ∷ mid)) arg more))

  skipped :
      (fuel : ℕ) (ys : List Text)
      → is_equal port_flag arg ≡ true
      → Packed fuel argv (iarg + 2) idest front ys
      → Packed (suc fuel) argv iarg idest front ys
  unfolding packargs_loop
  skipped fuel ys same (argv', run, packed, whole) = (
    argv',
    rw (lt→ltb iarg (length argv) (omega (arith, count_lem)), here_lem, same) run,
    packed,
    whole,
  )

  kept :
      (fuel : ℕ) (ys argv2 : List Text)
      → is_equal port_flag arg ≡ false
      → argv2 ≡ front ++ (arg ∷ (mid ++ (arg ∷ more)))
      → Packed fuel argv2 (iarg + 1) (idest + 1) (front ++ (arg ∷ [])) ys
      → Packed (suc fuel) argv iarg idest front (arg ∷ ys)
  unfolding packargs_loop
  kept fuel ys argv2 other e2 (argv', run, packed, whole) =
      let next : idest + 1 + length ys ≡ idest + length (arg ∷ ys) = omega arith in
      let set : set_elem argv idest arg ≡ some argv2 =
        rw (e, d, e2) (set_elem-append front m (mid ++ (arg ∷ more)) arg) in
      (
        argv',
        rw (lt→ltb iarg (length argv) (omega (arith, count_lem)), here_lem, other, set, ← next) run,
        rw (← next, packed) (append_assoc front (arg ∷ []) ys),
        whole
            ∙ omega (
              arith,
              ap length e,
              ap length e2,
              length-append front ((m ∷ mid) ++ (arg ∷ more)),
              length-append front (arg ∷ (mid ++ (arg ∷ more))),
            ),
      )

  -- The argument is kept, and the loop goes on with what stands between as long as before.
  went_on :
      (fuel : ℕ) (ys : List Text)
      → is_equal port_flag arg ≡ false
      → ((argv2 : List Text) (m2 : Text) (mid2 : List Text)
          → argv2 ≡ (front ++ (arg ∷ [])) ++ ((m2 ∷ mid2) ++ more)
          → length mid2 ≡ length mid
          → Packed fuel argv2 (iarg + 1) (idest + 1) (front ++ (arg ∷ [])) ys)
      → Packed (suc fuel) argv iarg idest front (arg ∷ ys)
  went_on fuel ys other later =
      let (m2, mid2, moved) = shifted mid arg in
      kept fuel ys (front ++ (arg ∷ (mid ++ (arg ∷ more)))) other refl (
        later (front ++ (arg ∷ (mid ++ (arg ∷ more)))) m2 mid2
          (ap (λ l. front ++ (arg ∷ l))
              (sym (append_assoc mid (arg ∷ []) more) ∙ ap (λ l. l ++ more) (sym moved))
            ∙ sym (append_assoc front (arg ∷ []) ((m2 ∷ mid2) ++ more)))
          (omega (arith, ap length moved, length-append mid (arg ∷ []))))

loop_lem :
    (fuel : ℕ) (argv front : List Text) (m : Text) (mid rest : List Text) (iarg idest : ℕ)
    → argv ≡ front ++ ((m ∷ mid) ++ rest)
    → length rest < fuel
    → iarg ≡ length front + suc (length mid)
    → idest ≡ length front
    → Packed fuel argv iarg idest front (others rest)
loop_lem zero argv front m mid rest iarg idest e enough i d = absurd (omega arith)
loop_lem (suc fuel) argv front m mid [] iarg idest e enough i d =
    ended fuel argv front ((m ∷ mid) ++ []) iarg idest e
      (omega (arith, ap length e, length-append front ((m ∷ mid) ++ []), length-append mid [])) d
loop_lem (suc zero) argv front m mid (arg ∷ rest) iarg idest e enough i d = absurd (omega arith)
loop_lem (suc (suc fuel)) argv front m mid (arg ∷ []) iarg idest e enough i d =
    let n = count_lem argv front m mid arg [] e iarg idest i d in
    elim (Bool-cases (is_equal port_flag arg)) [
      | inl same ↦ rw same (
          skipped argv front m mid arg [] e iarg idest i d (suc fuel) [] same (
            ended fuel argv front ((m ∷ mid) ++ (arg ∷ [])) (iarg + 2) idest e (omega (arith, n))
              d))
      | inr other ↦ rw other (
          went_on argv front m mid arg [] e iarg idest i d (suc fuel) [] other
            (λ argv2 m2 mid2 e2 same.
              loop_lem (suc fuel) argv2 (front ++ (arg ∷ [])) m2 mid2 [] (iarg + 1) (idest + 1) e2
                (omega arith) (omega (arith, length-append front (arg ∷ [])))
                (omega (arith, length-append front (arg ∷ [])))))
    ]
loop_lem (suc (suc fuel)) argv front m mid (arg ∷ value ∷ rest) iarg idest e enough i d =
    elim (Bool-cases (is_equal port_flag arg)) [
      | inl same ↦
          let past : argv ≡ front ++ ((m ∷ (mid ++ (arg ∷ value ∷ []))) ++ rest) =
            e ∙ ap (λ l. front ++ (m ∷ l)) (sym (append_assoc mid (arg ∷ value ∷ []) rest)) in
          rw same (
            skipped argv front m mid arg (value ∷ rest) e iarg idest i d (suc fuel) (others rest)
              same
              (loop_lem (suc fuel) argv front m (mid ++ (arg ∷ value ∷ [])) rest (iarg + 2) idest
                past (omega arith) (omega (arith, length-append mid (arg ∷ value ∷ []))) d))
      | inr other ↦ rw other (
          went_on argv front m mid arg (value ∷ rest) e iarg idest i d (suc fuel)
            (others (value ∷ rest)) other
            (λ argv2 m2 mid2 e2 same.
              loop_lem (suc fuel) argv2 (front ++ (arg ∷ [])) m2 mid2 (value ∷ rest) (iarg + 1)
                (idest + 1) e2 (omega arith) (omega (arith, length-append front (arg ∷ [])))
                (omega (arith, length-append front (arg ∷ [])))))
    ]

-- `packargs` leaves, at the front of the vector, which is as long as before, the arguments without each
-- flag for the port and the argument behind it, in their order, and returns how many they are. It never
-- reads or writes outside the vector.
pub packargs-others :
    (name : Text) (args : List Text)
    → (argv' : List Text) × (packargs (name ∷ args) ≡ ok (length (others args), argv'))
      × (take (length (others args)) argv' ≡ others args)
      × (length argv' ≡ length (name ∷ args))
unfolding packargs
packargs-others name args =
    subst
      (λ k.
        (argv' : List Text) × (packargs (name ∷ args) ≡ ok (k, argv'))
        × (take k argv' ≡ others args)
        × (length argv' ≡ length (name ∷ args)))
      (omega arith)
      (loop_lem (suc (length (name ∷ args))) (name ∷ args) [] name [] args 1 0 refl (omega arith)
        (omega arith) refl)
