-- ===== src/Socket/Transfer.antt =====
-- What sending and receiving bring about.
use mcoap.Base.{
  ℕ, zero, suc, ◌+◌, ◌≡◌, ◌⊎◌, ◌<◌, ◌≤◌, inl, inr, refl, subst, dec_lt, Bool, true, false,
  Bool-cases, ◌||◌, ◌∙◌, arith,
}
use mcoap.Base.Int.{ℤ, pos, negsuc, pos_part}
use mcoap.Base.Run.{Run, ok}
use mcoap.Sockaddr.{mn_done, mn_closed, is_done}
use mcoap.Timeout.{Timeout, is_negative}
use mcoap.Socket.{
  Codes, Reply, System, same_ℤ, is_positive, invalid, waitfd, transfer_loop, send_closed,
  recv_closed, sendto, recvfrom,
}

positive_lem : (z : ℤ) → is_positive z ≡ true → (0 < pos_part z) × (z ≡ pos (pos_part z))
positive_lem (pos n) e = (ground (arith, e), refl)
positive_lem (negsuc n) e = cc

-- The wait behind each call ends, with the answer given.
pub record IsFair (codes : Codes) (system : System) (tout : Timeout) (need : ℕ) : Type 0 where
  pub answer : ℕ → ℤ
  pub ends : (left k : ℕ) → need ≤ left → waitfd codes system tout left k false ≡ ok (answer k)

-- What becomes of a call, by its answer and that of the wait behind it; `is_broken` is the test for a
-- connection that the other side closed.
module _ (codes : Codes) (is_broken : Reply → Bool) (reply : Reply) (waited : ℤ) where
  -- It failed and is made again: a signal came in, or it had to wait and the wait succeeded.
  pub record IsRetried : Type 0 where
    failed : is_negative reply.ret ≡ true
    unbroken : is_broken reply ≡ false
    cause :
        (same_ℤ reply.errno codes.eintr ≡ true)
        ⊎ ((same_ℤ reply.errno codes.eagain ≡ true) × (is_done waited ≡ true))

  -- It is the last, and the operation reports an error and a number of bytes.
  pub data Verdict (err : ℤ) (n : ℕ) : Type 0 where
    moved : 0 < n → reply.ret ≡ pos n → err ≡ mn_done → Verdict err n
    ended : same_ℤ reply.ret (pos 0) ≡ true → err ≡ mn_closed → n ≡ 0 → Verdict err n
    broken :
        is_negative reply.ret ≡ true
        → is_broken reply ≡ true
        → err ≡ mn_closed
        → n ≡ 0
        → Verdict err n
    failed :
        is_negative reply.ret ≡ true
        → is_broken reply ≡ false
        → same_ℤ reply.errno codes.eintr ≡ false
        → same_ℤ reply.errno codes.eagain ≡ false
        → err ≡ reply.errno
        → n ≡ 0
        → Verdict err n
    late :
        is_negative reply.ret ≡ true
        → is_broken reply ≡ false
        → same_ℤ reply.errno codes.eintr ≡ false
        → same_ℤ reply.errno codes.eagain ≡ true
        → is_done waited ≡ false
        → err ≡ waited
        → n ≡ 0
        → Verdict err n

-- The operation returns what the call `decisive` makes of it, after calls that each were made again.
pub record IsDecided (codes : Codes) (system : System) (is_broken : Reply → Bool) (answer : ℕ → ℤ)
    (first last : ℕ) (run : Run (ℤ × ℕ)) : Type 0 where
  pub decisive : ℕ
  pub after : first ≤ decisive
  pub before : decisive ≤ last
  pub retried :
      (i : ℕ) → first ≤ i → i < decisive → IsRetried codes is_broken (system.call i) (answer i)
  pub err : ℤ
  pub n : ℕ
  pub verdict : Verdict codes is_broken (system.call decisive) (answer decisive) err n
  pub returns : run ≡ ok (err, n)

negative_lem : (z : ℤ) → is_positive z ≡ false → same_ℤ z (pos 0) ≡ false → is_negative z ≡ true
negative_lem (pos n) h e = absurd (ground (arith, h, e))
negative_lem (negsuc n) h e = ground arith

module _ (codes : Codes) (system : System) (tout : Timeout) (need : ℕ)
    (fair : IsFair codes system tout need) (is_broken : Reply → Bool) (is_closed : Reply → Bool)
    (closes : (r : Reply) → is_closed r ≡ (same_ℤ r.ret (pos 0) || is_broken r)) (last : ℕ)
    (decisive : is_negative (system.call last).ret ≡ false) where
  abbrev Decided : ℕ → ℕ → Type 0
  Decided fuel k =
      IsDecided codes system is_broken fair.answer k last
        (transfer_loop codes system tout is_closed fuel k)

  here :
      (fuel k : ℕ) (err : ℤ) (n : ℕ)
      → k ≤ last
      → Verdict codes is_broken (system.call k) (fair.answer k) err n
      → transfer_loop codes system tout is_closed fuel k ≡ ok (err, n)
      → Decided fuel k
  here fuel k err n before verdict returns = record {
    decisive = k;
    after = omega arith;
    before = before;
    retried = λ i from below. absurd (omega arith);
    err = err;
    n = n;
    verdict = verdict;
    returns = returns;
  }

  again :
      (fuel k : ℕ)
      → IsRetried codes is_broken (system.call k) (fair.answer k)
      → transfer_loop codes system tout is_closed (suc fuel) k
        ≡ transfer_loop codes system tout is_closed fuel (k + 1)
      → Decided fuel (k + 1)
      → Decided (suc fuel) k
  again fuel k retried same d = record {
    decisive = d.decisive;
    after = omega (arith, d.after);
    before = d.before;
    retried = λ i from below. elim (dec_lt k i) [
      | yes less ↦ d.retried i (omega arith) below
      | no equal ↦
          let first : k ≡ i = omega arith in
          subst (λ j. IsRetried codes is_broken (system.call j) (fair.answer j)) first retried
    ];
    err = d.err;
    n = d.n;
    verdict = d.verdict;
    returns = same ∙ d.returns;
  }

  step :
      (fuel k : ℕ)
      → need ≤ fuel
      → k ≤ last
      → is_positive (system.call k).ret ≡ false
      → same_ℤ (system.call k).ret (pos 0) ≡ false
      → is_broken (system.call k) ≡ false
      → (k < last → Decided fuel (k + 1))
      → Decided (suc fuel) k
  unfolding transfer_loop
  step fuel k enough before still open_yet usable rest =
      let unclosed : is_closed (system.call k) ≡ false =
        closes (system.call k) ∙ rw (open_yet, usable) refl in
      let negative = negative_lem (system.call k).ret still open_yet in
      let waited = fair.ends fuel k enough in
      let more = rest (less_lem k before negative) in
      elim (Bool-cases (same_ℤ (system.call k).errno codes.eintr)) [
        | inl interrupted ↦
            again fuel k (record { failed = negative; unbroken = usable; cause = inl interrupted })
              (rw (still, unclosed, interrupted) refl) more
        | inr other ↦ elim (Bool-cases (same_ℤ (system.call k).errno codes.eagain)) [
          | inr failing ↦
              here (suc fuel) k (system.call k).errno 0 before
                (failed negative usable other failing refl refl)
                (rw (still, unclosed, other, failing) refl)
          | inl full ↦ elim (Bool-cases (is_done (fair.answer k))) [
            | inl ready ↦
                again fuel k
                  (record { failed = negative; unbroken = usable; cause = inr (full, ready) })
                  (rw (still, unclosed, other, full, waited, ready) refl) more
            | inr out ↦
                here (suc fuel) k (fair.answer k) 0 before
                  (late negative usable other full out refl refl)
                  (rw (still, unclosed, other, full, waited, out) refl)
          ]
        ]
      ]
    where
      less_lem : (k : ℕ) → k ≤ last → is_negative (system.call k).ret ≡ true → k < last
      less_lem k before negative = elim (dec_lt k last) [
        | yes less ↦ less
        | no past ↦
            let same : last ≡ k = omega arith in
            let never = subst (λ i. is_negative (system.call i).ret ≡ false) same decisive in
            absurd cc
      ]

  decided : (fuel k : ℕ) → k ≤ last → last + need < k + fuel → Decided fuel k
  unfolding transfer_loop
  decided zero k before enough = absurd (omega arith)
  decided (suc fuel) k before enough = elim (Bool-cases (is_positive (system.call k).ret)) [
    | inl put ↦
        let (more, whole) = positive_lem (system.call k).ret put in
        here (suc fuel) k mn_done (pos_part (system.call k).ret) before (moved more whole refl)
          (rw put refl)
    | inr still ↦ elim (Bool-cases (same_ℤ (system.call k).ret (pos 0))) [
      | inl null ↦
          here (suc fuel) k mn_closed 0 before (ended null refl refl)
            (rw (still, closes (system.call k), null) refl)
      | inr open_yet ↦ elim (Bool-cases (is_broken (system.call k))) [
        | inl gone ↦
            here (suc fuel) k mn_closed 0 before
              (broken (negative_lem (system.call k).ret still open_yet) gone refl refl)
              (rw (still, closes (system.call k), open_yet, gone) refl)
        | inr usable ↦
            step fuel k (omega arith) before still open_yet usable
              (λ less. decided fuel (k + 1) (omega arith) (omega arith))
      ]
    ]
  ]

module _ (codes : Codes) (system : System) (tout : Timeout) (need : ℕ)
    (fair : IsFair codes system tout need) (sock : ℤ) (fuel last : ℕ) (enough : last + need < fuel)
    (decisive : is_negative (system.call last).ret ≡ false)
    (usable : same_ℤ sock invalid ≡ false) where
  -- `mn_socket_sendto` on an open socket returns when each wait ends and one of the system's answers is
  -- no failure, at that call or before. It makes a call again just where it failed because of a signal
  -- or because it had to wait and the wait succeeded. The call that it ends with decides: MN_DONE with
  -- exactly the bytes that were sent; with no byte, MN_CLOSED after an answer of 0 or EPIPE, the wait's
  -- error where the wait failed, and else the call's error number.
  pub sendto-IsDecided :
      IsDecided codes system
        (λ r. same_ℤ r.errno codes.epipe)
        fair.answer
        0
        last
        (sendto codes system tout sock fuel)
  unfolding sendto
  sendto-IsDecided = rw usable (
      decided codes system tout need fair (λ r. same_ℤ r.errno codes.epipe)
        (send_closed codes system tout) (λ r. refl) last decisive fuel 0 (omega arith)
        (omega arith))

  -- `mn_socket_recvfrom` likewise, with MN_CLOSED only after an answer of 0.
  recvfrom-IsDecided :
      IsDecided codes system (λ r. false) fair.answer 0 last (recvfrom codes system tout sock fuel)
  unfolding recvfrom
  recvfrom-IsDecided = rw usable (
      decided codes system tout need fair (λ r. false) (recv_closed codes system tout)
        (λ r. or_false (same_ℤ r.ret (pos 0))) last decisive fuel 0 (omega arith) (omega arith))
    where
      or_false : (b : Bool) → b ≡ (b || false)
      or_false true = refl
      or_false false = refl
