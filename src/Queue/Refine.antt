-- ===== src/Queue/Refine.antt =====
-- What the queue stands for: the list of its entries, in the order in which they were added.
use mcoap.Base.{◌≡◌, ◌≢◌, refl, sym, subst, true, false, none, some, [], ◌∷◌, ◌++◌, arith, ◌==◌}
use mcoap.Base.Run.{ok}
use mcoap.Queue.{
  Ptr, null, Body, Entry, Queue, Addition, new_entry, queue_entry_init, update, load, set_next,
  set_prev, set_first, set_last, store, add,
}
use mcoap.Queue.Segment.{
  Cells, Heap, first_of, last_of, entry_of, IsSegment, IsApart, AllApart-one, AreDistinct,
  AreDistinct-join, frame, join, last_of-append,
}

pub record Represents (queue : Queue) (xs : Cells) : Type 0 where
  pub front : queue.first ≡ first_of xs null
  pub back : queue.last ≡ last_of null xs
  pub linked : IsSegment queue.cell null null xs
  pub distinct : AreDistinct xs

pub load_lem :
    (queue : Queue) (p : Ptr) (entry : Entry)
    → p ≢ null
    → queue.cell p ≡ some entry
    → load queue p ≡ ok entry
unfolding load
load_lem queue p entry ne e = ground arith

pub set_next_lem :
    (queue : Queue) (p q : Ptr) (entry : Entry)
    → p ≢ null
    → queue.cell p ≡ some entry
    → set_next queue p q ≡ ok (store queue p (some (record entry { next = q })))
unfolding set_next
set_next_lem queue p q entry ne e = rw (load_lem queue p entry ne e) refl

pub set_prev_lem :
    (queue : Queue) (p q : Ptr) (entry : Entry)
    → p ≢ null
    → queue.cell p ≡ some entry
    → set_prev queue p q ≡ ok (store queue p (some (record entry { prev = q })))
unfolding set_prev
set_prev_lem queue p q entry ne e = rw (load_lem queue p entry ne e) refl

-- The address of a fresh allocation is that of no entry.
IsApart-fresh :
    (cell : Heap) (a prev next : Ptr) (xs : Cells)
    → cell a ≡ none
    → IsSegment cell prev next xs
    → IsApart a xs
IsApart-fresh cell a prev next [] unused s = tt
IsApart-fresh cell a prev next ((p, b) ∷ xs) unused s =
    (ground (arith, s.1), IsApart-fresh cell a p next xs unused s.2)

last_of_ne : (a q : Ptr) (c : Body) (xs : Cells) → IsApart a ((q, c) ∷ xs) → last_of q xs ≢ a
last_of_ne a q c [] apart = apart.0
last_of_ne a q c ((p, b) ∷ xs) apart = last_of_ne a p b xs apart.1

-- The last of the entries, whatever follows it, is set to be followed by `m`.
pub relink_last :
    (cell : Heap) (prev n m p : Ptr) (b : Body) (xs : Cells)
    → IsSegment cell prev n ((p, b) ∷ xs)
    → AreDistinct ((p, b) ∷ xs)
    → (entry : Entry) × (last_of p xs ≢ null)
      × (cell (last_of p xs) ≡ some entry)
      × IsSegment
          (update cell (last_of p xs) (some (record entry { next = m })))
          prev
          m
          ((p, b) ∷ xs)
relink_last cell prev n m p b [] s d = (entry_of b prev n, s.0, s.1, (s.0, ground arith, tt))
relink_last cell prev n m p b ((q, c) ∷ xs) s d =
    let (entry, ne, there, linked) = relink_last cell p n m q c xs s.2 d.1 in
    (entry, ne, there, (s.0, ground (arith, s.1, last_of_ne p q c xs d.0), linked))

-- `mc_buffer_queue_add` puts the message behind those that wait, under the address of its entry.
pub add-Represents :
    (queue : Queue) (xs : Cells) (a : Addition)
    → Represents queue xs
    → a.fresh ≢ null
    → queue.cell a.fresh ≡ none
    → (queue' : Queue) × (add queue a ≡ ok (a.fresh, queue'))
      × Represents queue' (xs ++ ((a.fresh, (new_entry a null).body) ∷ []))
unfolding add queue_entry_init set_first set_last
add-Represents queue [] a r ne unused =
    let empty : (queue.first == null) ≡ true = ground (arith, r.front) in
    (
      record {
        first = a.fresh;
        last = a.fresh;
        cell = update queue.cell a.fresh (some (new_entry a null));
      },
      rw empty refl,
      record { front = refl; back = refl; linked = (ne, ground arith, tt); distinct = (tt, tt) },
    )
add-Represents queue ((p, b) ∷ xs) a r ne unused =
    let some_there : (queue.first == null) ≡ false = ground (arith, r.front, r.linked.0) in
    let apart = IsApart-fresh queue.cell a.fresh null null ((p, b) ∷ xs) unused r.linked in
    let cell1 : Heap = update queue.cell a.fresh (some (new_entry a queue.last)) in
    let before =
      frame queue.cell a.fresh (some (new_entry a queue.last)) null null ((p, b) ∷ xs) apart
        r.linked in
    let (entry, last_ne, there, linked) =
      relink_last cell1 null null a.fresh p b xs before r.distinct in
    let last_there = subst (λ l. cell1 l ≡ some entry) (sym r.back) there in
    let linked' : IsSegment (update cell1 queue.last (some (record entry { next = a.fresh }))) null
        a.fresh ((p, b) ∷ xs) =
      subst
        (λ l.
          IsSegment (update cell1 l (some (record entry { next = a.fresh }))) null a.fresh
            ((p, b) ∷ xs))
        (sym r.back) linked in
    let apart_last = last_of_ne a.fresh p b xs apart in
    (
      record {
        first = queue.first;
        last = a.fresh;
        cell = update cell1 queue.last (some (record entry { next = a.fresh }));
      },
      rw
          (
            some_there,
            set_next_lem (store queue a.fresh (some (new_entry a queue.last))) queue.last a.fresh
                entry (subst (λ l. l ≢ null) (sym r.back) last_ne) last_there,
          )
          refl,
      record {
        front = r.front;
        back = sym (last_of-append null ((p, b) ∷ xs) ((a.fresh, (new_entry a null).body) ∷ []));
        linked =
            join (update cell1 queue.last (some (record entry { next = a.fresh }))) null null
              ((p, b) ∷ xs) ((a.fresh, (new_entry a null).body) ∷ []) linked'
              (ne, ground (arith, apart_last, r.back), tt);
        distinct =
            AreDistinct-join ((p, b) ∷ xs) ((a.fresh, (new_entry a null).body) ∷ []) r.distinct
              (tt, tt) (AllApart-one a.fresh (new_entry a null).body ((p, b) ∷ xs) apart);
      },
    )
