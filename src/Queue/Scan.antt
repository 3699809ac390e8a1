-- ===== src/Queue/Scan.antt =====
-- The loops over the queue: counting, looking up by message id, looking for a timeout, freeing all.
use mcoap.Base.{
  ℕ, zero, suc, ◌+◌, ◌<◌, ◌≡◌, ◌⊎◌, inl, inr, refl, ap, ◌∙◌, Bool, true, false, [], ◌∷◌, ◌++◌,
  arith, length, All, ◌==◌, if◌then◌else◌, Bool-cases, add32,
}
use mcoap.Timeout.{Clock}
use mcoap.Base.Run.{Run, ok, ◌>>=◌}
use mcoap.Queue.{
  Ptr, null, Body, Queue, count_loop, remove_entry, get_loop, is_out, next_timeout, timeout_loop,
}
use mcoap.Queue.Segment.{Cells, first_of, entry_of, IsSegment}
use mcoap.Queue.Refine.{load_lem}

abbrev pub Test : Type 0
Test = Ptr → Body → Bool

-- The address of the first entry that passes the test, or null.
abbrev pub first_with : Test → Cells → Ptr
first_with test [] = null
first_with test ((p, b) ∷ xs) = if test p b then p else first_with test xs

-- The first entry that passes the test, between what stands before it and behind it.
pub record Found (test : Test) (xs : Cells) : Type 0 where
  pub front : Cells
  pub address : Ptr
  pub body : Body
  pub back : Cells
  pub split : xs ≡ front ++ ((address, body) ∷ back)
  pub passes : test address body ≡ true
  pub others : All (λ x. test x.0 x.1 ≡ false) front

abbrev pub NoneOf : Test → Cells → Type 0
NoneOf test xs = All (λ x. test x.0 x.1 ≡ false) xs

pub first_with_cases :
    (test : Test) (xs : Cells)
    → ((f : Found test xs) × (first_with test xs ≡ f.address))
      ⊎ (NoneOf test xs × (first_with test xs ≡ null))
first_with_cases test [] = inr (tt, refl)
first_with_cases test ((p, b) ∷ xs) = elim (Bool-cases (test p b)) [
  | inl hit ↦ inl (
    record {
      front = [];
      address = p;
      body = b;
      back = xs;
      split = refl;
      passes = hit;
      others = tt;
    },
    rw hit refl,
  )
  | inr miss ↦ elim (first_with_cases test xs) [
    | inl (f, e) ↦ inl (
      record {
        front = (p, b) ∷ f.front;
        address = f.address;
        body = f.body;
        back = f.back;
        split = ap (λ l. (p, b) ∷ l) f.split;
        passes = f.passes;
        others = (miss, f.others);
      },
      rw miss e,
    )
    | inr (others, e) ↦ inr ((miss, others), rw miss e)
  ]
]

module _ (queue : Queue) where
  pub count_loop_lem :
      (fuel : ℕ) (prev : Ptr) (xs : Cells) (n : ℕ)
      → IsSegment queue.cell prev null xs
      → length xs < fuel
      → n + length xs < 4294967296
      → count_loop fuel queue (first_of xs null) n ≡ ok (n + length xs)
  unfolding count_loop
  count_loop_lem zero prev xs n s enough small = absurd (omega arith)
  count_loop_lem (suc fuel) prev [] n s enough small = ap ok (omega arith)
  count_loop_lem (suc fuel) prev ((p, b) ∷ xs) n s enough small =
      let not_null : (p == null) ≡ false = ground (arith, s.0) in
      let one : add32 n 1 ≡ n + 1 = omega arith in
      rw (not_null, load_lem queue p (entry_of b prev (first_of xs null)) s.0 s.1, one)
        (count_loop_lem fuel p xs (n + 1) s.2 (omega arith) (omega arith) ∙ ap ok (omega arith))

  pub get_loop_lem :
      (fuel : ℕ) (prev : Ptr) (xs : Cells) (msgid : ℕ)
      → IsSegment queue.cell prev null xs
      → length xs < fuel
      → get_loop fuel queue (first_of xs null) msgid ≡ ok (first_with (λ p b. b.msgid == msgid) xs)
  unfolding get_loop
  get_loop_lem zero prev xs msgid s enough = absurd (omega arith)
  get_loop_lem (suc fuel) prev [] msgid s enough = refl
  get_loop_lem (suc fuel) prev ((p, b) ∷ xs) msgid s enough =
      let not_null : (p == null) ≡ false = ground (arith, s.0) in
      rw
        (
          not_null,
          load_lem queue p (entry_of b prev (first_of xs null)) s.0 s.1,
          get_loop_lem fuel p xs msgid s.2 (omega arith),
        )
        (ground arith)

  pub next_timeout_lem :
      (clock : Ptr → Clock) (fuel : ℕ) (prev : Ptr) (xs : Cells)
      → IsSegment queue.cell prev null xs
      → length xs < fuel
      → next_timeout clock fuel queue (first_of xs null) ≡ ok (first_with (is_out clock) xs)
  unfolding next_timeout
  next_timeout_lem clock zero prev xs s enough = absurd (omega arith)
  next_timeout_lem clock (suc fuel) prev [] s enough = refl
  next_timeout_lem clock (suc fuel) prev ((p, b) ∷ xs) s enough =
      let not_null : (p == null) ≡ false = ground (arith, s.0) in
      rw
        (
          not_null,
          load_lem queue p (entry_of b prev (first_of xs null)) s.0 s.1,
          next_timeout_lem clock fuel p xs s.2 (omega arith),
        )
        (ground arith)

  -- Taking out the entry that is found, if there is one.
  abbrev pub take_out : Ptr → Run (Ptr × Queue)
  take_out p =
      if p == null then ok (null, queue) else (remove_entry queue p >>= (λ queue'. ok (p, queue')))

  pub timeout_loop_lem :
      (clock : Ptr → Clock) (fuel : ℕ) (prev : Ptr) (xs : Cells)
      → IsSegment queue.cell prev null xs
      → length xs < fuel
      → timeout_loop clock fuel queue (first_of xs null) ≡ take_out (first_with (is_out clock) xs)
  unfolding timeout_loop
  timeout_loop_lem clock zero prev xs s enough = absurd (omega arith)
  timeout_loop_lem clock (suc fuel) prev [] s enough = refl
  timeout_loop_lem clock (suc fuel) prev ((p, b) ∷ xs) s enough =
      let not_null : (p == null) ≡ false = ground (arith, s.0) in
      let rest = timeout_loop_lem clock fuel p xs s.2 (omega arith) in
      elim (Bool-cases (is_out clock p b)) [
        | inl out ↦
            rw
              (
                not_null,
                load_lem queue p (entry_of b prev (first_of xs null)) s.0 s.1,
                out,
                not_null,
              )
              refl
        | inr more ↦
            rw (not_null, load_lem queue p (entry_of b prev (first_of xs null)) s.0 s.1, more) rest
      ]
