-- ===== src/Queue/Lookup.antt =====
-- The operations that look through the queue, on the list that it stands for.
use mcoap.Base.{
  ℕ, zero, suc, ◌<◌, ◌≡◌, ◌⊎◌, inl, inr, refl, ap, ◌∙◌, subst, true, false, none, some, [], ◌∷◌,
  ◌++◌, arith, length, ◌==◌,
}
use mcoap.Timeout.{Clock}
use mcoap.Base.Run.{ok}
use mcoap.Queue.{
  count_loop, get_loop, timeout_loop, Ptr, null, Queue, count, remove_and_free, get, remove,
  free_all, is_out, next_timeout, has_timeout, timeout,
}
use mcoap.Queue.Segment.{Cells, first_of, entry_of, split}
use mcoap.Queue.Refine.{Represents}
use mcoap.Queue.Remove.{remove_entry_lem, remove_and_free-Represents}
use mcoap.Queue.Scan.{
  Test, Found, NoneOf, first_with, first_with_cases, count_loop_lem, get_loop_lem, next_timeout_lem,
  timeout_loop_lem,
}

abbrev pub has_msgid : ℕ → Test
has_msgid msgid p b = b.msgid == msgid

-- The queue is its list with the entry that was found in its place.
pub placed :
    {queue : Queue} {test : Test} (xs : Cells)
    → Represents queue xs
    → (f : Found test xs) → Represents queue (f.front ++ ((f.address, f.body) ∷ f.back))
placed {queue} xs r f = subst (Represents queue) f.split r

Found-ne_null :
    {queue : Queue} {test : Test} (xs : Cells)
    → Represents queue xs
    → (f : Found test xs) → (f.address == null) ≡ false
Found-ne_null {queue} xs r f =
    let (before, here) =
      split queue.cell null null f.front ((f.address, f.body) ∷ f.back) (placed xs r f).linked in
    ground (arith, here.0)

module _ (queue : Queue) (xs : Cells) (r : Represents queue xs) (fuel : ℕ)
    (enough : length xs < fuel) where
  -- `mc_buffer_queue_count` is the number of entries, below 2 ^ 32.
  pub count-length : length xs < 4294967296 → count fuel queue ≡ ok (length xs)
  unfolding count
  count-length small =
      ap (λ p. count_loop fuel queue p 0) r.front
      ∙ count_loop_lem queue fuel null xs 0 r.linked enough (omega arith)
      ∙ ap ok (omega arith)

  -- The search for a message: null if there is no entry of it.
  pub get_first : (msgid : ℕ) → get fuel (some queue) msgid ≡ ok (first_with (has_msgid msgid) xs)
  unfolding get
  get_first msgid =
      ap (λ p. get_loop fuel queue p msgid) r.front
      ∙ get_loop_lem queue fuel null xs msgid r.linked enough

  next_first :
      (clock : Ptr → Clock)
      → next_timeout clock fuel queue queue.first ≡ ok (first_with (is_out clock) xs)
  next_first clock =
      ap (λ p. next_timeout clock fuel queue p) r.front
      ∙ next_timeout_lem queue clock fuel null xs r.linked enough

  -- `mc_buffer_queue_remove` takes out the first entry of the message, frees it and returns the
  -- message id; the others stay in their order. Without such an entry it returns UINT32_MAX and leaves
  -- the queue as it was.
  pub remove-Represents :
      (msgid : ℕ)
      → ((f : Found (has_msgid msgid) xs) × (queue' : Queue) × (remove fuel queue msgid
            ≡ ok (msgid, queue'))
          × Represents queue' (f.front ++ f.back)
          × (queue'.cell f.address ≡ none))
        ⊎ (NoneOf (has_msgid msgid) xs × (remove fuel queue msgid ≡ ok (4294967295, queue)))
  unfolding remove
  remove-Represents msgid = elim (first_with_cases (has_msgid msgid) xs) [
    | inl (f, e) ↦
        let (queue', run, rest, freed) =
          remove_and_free-Represents f.address f.body queue f.front f.back (placed xs r f) in
        inl (f, queue', rw (get_first msgid, e, Found-ne_null xs r f, run) refl, rest, freed)
    | inr (others, e) ↦ inr (others, rw (get_first msgid, e) refl)
  ]

  -- `mc_buffer_queue_has_timeout` tells whether an entry has run out at the time when it is looked at.
  pub has_timeout_iff :
      (clock : Ptr → Clock)
      → (Found (is_out clock) xs × (has_timeout clock fuel queue ≡ ok true))
        ⊎ (NoneOf (is_out clock) xs × (has_timeout clock fuel queue ≡ ok false))
  unfolding has_timeout
  has_timeout_iff clock = elim (first_with_cases (is_out clock) xs) [
    | inl (f, e) ↦ inl (f, rw (next_first clock, e, Found-ne_null xs r f) refl)
    | inr (others, e) ↦ inr (others, rw (next_first clock, e) refl)
  ]

  -- `mc_buffer_queue_timeout` takes out the first entry that has run out, which is still there and
  -- linked to nothing; the others stay in their order. If none has run out it returns null and leaves
  -- the queue as it was.
  pub timeout-Represents :
      (clock : Ptr → Clock)
      → ((f : Found (is_out clock) xs) × (queue' : Queue) × (timeout clock fuel queue
            ≡ ok (f.address, queue'))
          × Represents queue' (f.front ++ f.back)
          × (queue'.cell f.address ≡ some (entry_of f.body null null)))
        ⊎ (NoneOf (is_out clock) xs × (timeout clock fuel queue ≡ ok (null, queue)))
  unfolding timeout
  timeout-Represents clock =
      let run =
        ap (λ p. timeout_loop clock fuel queue p) r.front
        ∙ timeout_loop_lem queue clock fuel null xs r.linked enough in
      elim (first_with_cases (is_out clock) xs) [
        | inl (f, e) ↦
            let (queue', removed_run, removed) =
              remove_entry_lem f.address f.body queue f.front f.back (placed xs r f) in
            inl (
              f,
              queue',
              run ∙ rw (e, Found-ne_null xs r f, removed_run) refl,
              removed.rest,
              removed.there,
            )
        | inr (others, e) ↦ inr (others, run ∙ rw e refl)
      ]

-- `mc_buffer_queue_free` leaves the empty queue, with no read of an entry that it freed.
pub free_all-Represents :
    (fuel : ℕ) (queue : Queue) (xs : Cells)
    → Represents queue xs
    → length xs < fuel
    → (queue' : Queue) × (free_all fuel queue ≡ ok queue') × Represents queue' []
unfolding free_all
free_all-Represents zero queue xs r enough = absurd (omega arith)
free_all-Represents (suc fuel) queue [] r enough =
    let empty : (queue.first == null) ≡ true = ground (arith, r.front) in (queue, rw empty refl, r)
free_all-Represents (suc fuel) queue ((p, b) ∷ xs) r enough =
    let some_there : (queue.first == null) ≡ false = ground (arith, r.front, r.linked.0) in
    let (queue1, run, rest, freed) = remove_and_free-Represents p b queue [] xs r in
    let (queue2, run2, empty) = free_all-Represents fuel queue1 xs rest (omega arith) in
    let first_run : remove_and_free queue queue.first ≡ ok (first_of xs null, queue1) =
      ap (remove_and_free queue) r.front ∙ run in
    (queue2, rw (some_there, first_run) run2, empty)
