-- ===== src/Queue/Remove.antt =====
-- Taking an entry out of the queue, wherever it stands.
use mcoap.Base.{
  ◌≡◌, ◌≢◌, refl, sym, ◌∙◌, false, Option, none, some, [], ◌∷◌, ◌++◌, arith, All-append, ◌==◌,
}
use mcoap.Base.Run.{ok}
use mcoap.Queue.{
  Ptr, null, Body, Entry, Queue, update, set_first, set_last, store, unlink_prev, unlink_next,
  remove_entry, free_entry, remove_and_free,
}
use mcoap.Queue.Segment.{
  Cells, Heap, first_of, last_of, entry_of, IsSegment, IsApart, AllApart, AreDistinct,
  AreDistinct-split, AreDistinct-join, frame, split, join, last_of-append, first_of-append,
  last_of-IsApart, IsApart-front, AllApart-tail,
}
use mcoap.Queue.Refine.{Represents, load_lem, set_next_lem, set_prev_lem, relink_last}

-- The queue around the entry at `p`, with `next` behind `front` and `prev` before `back`.
record Around (queue : Queue) (front : Cells) (p : Ptr) (b : Body) (back : Cells) (prev next : Ptr)
    : Type 0 where
  first : queue.first ≡ first_of front next
  before : IsSegment queue.cell null next front
  there : queue.cell p ≡ some (entry_of b (last_of null front) (first_of back null))
  behind : IsSegment queue.cell prev null back

-- The entry's neighbours are at other addresses.
record IsAlone (front : Cells) (p : Ptr) (b : Body) (back : Cells) : Type 0 where
  ne_null : p ≢ null
  fronts : AreDistinct front
  backs : AreDistinct ((p, b) ∷ back)
  apart : AllApart front ((p, b) ∷ back)

module _ (p : Ptr) (b : Body) where
  unlink_prev_lem :
      (queue : Queue) (front back : Cells)
      → IsAlone front p b back
      → Around queue front p b back p p
      → (queue1 : Queue) × (unlink_prev queue (entry_of b (last_of null front) (first_of back null))
          ≡ ok queue1)
        × (queue1.last ≡ queue.last)
        × Around queue1 front p b back p (first_of back null)
  unfolding unlink_prev set_first
  unlink_prev_lem queue [] back alone r = (
    set_first queue (first_of back null),
    refl,
    refl,
    record { first = refl; before = tt; there = r.there; behind = r.behind },
  )
  unlink_prev_lem queue ((a, c) ∷ front) back alone r =
      let next : Ptr = first_of back null in
      let l : Ptr = last_of a front in
      let (entry, ne, there, linked) =
        relink_last queue.cell null p next a c front r.before alone.fronts in
      let apart = last_of-IsApart a c front ((p, b) ∷ back) alone.apart in
      let not_first : (l == null) ≡ false = ground (arith, ne) in
      let changed : Option Entry = some (record entry { next = next }) in
      (
        store queue l changed,
        rw (not_first, set_next_lem queue l next entry ne there) refl,
        refl,
        record {
          first = r.first;
          before = linked;
          there = ground (arith, r.there, apart.0);
          behind = frame queue.cell l changed p null back apart.1 r.behind;
        },
      )

  unlink_next_lem :
      (queue : Queue) (front back : Cells)
      → IsAlone front p b back
      → Around queue front p b back p (first_of back null)
      → queue.last ≡ last_of p back
      → (queue2 : Queue) × (unlink_next queue (entry_of b (last_of null front) (first_of back null))
          ≡ ok queue2)
        × (queue2.last ≡ last_of (last_of null front) back)
        × Around queue2 front p b back (last_of null front) (first_of back null)
  unfolding unlink_next set_last
  unlink_next_lem queue front [] alone r last = (
    set_last queue (last_of null front),
    refl,
    refl,
    record { first = r.first; before = r.before; there = r.there; behind = tt },
  )
  unlink_next_lem queue front ((q, c) ∷ back) alone r last =
      let prev : Ptr = last_of null front in
      let changed : Option Entry = some (entry_of c prev (first_of back null)) in
      let not_last : (q == null) ≡ false = ground (arith, r.behind.0) in
      let apart =
        IsApart-front front back q c (AllApart-tail front ((q, c) ∷ back) p b alone.apart) in
      (
        store queue q changed,
        rw
            (
              not_last,
              set_prev_lem queue q prev (entry_of c p (first_of back null)) r.behind.0 r.behind.1,
            )
            refl,
        last,
        record {
          first = r.first;
          before = frame queue.cell q changed null q front apart r.before;
          there = ground (arith, r.there, alone.backs.0.0);
          behind = (
            r.behind.0,
            ground arith,
            frame queue.cell q changed q null back alone.backs.1.0 r.behind.2,
          );
        },
      )

  -- The queue without the entry, which is still there and linked to nothing.
  pub record Removed (queue : Queue) (front back : Cells) : Type 0 where
    pub rest : Represents queue (front ++ back)
    pub ne_null : p ≢ null
    pub there : queue.cell p ≡ some (entry_of b null null)
    pub apart : IsApart p (front ++ back)

  cleared :
      (queue : Queue) (front back : Cells)
      → IsAlone front p b back
      → queue.last ≡ last_of (last_of null front) back
      → Around queue front p b back (last_of null front) (first_of back null)
      → Removed
          (store
            (store queue p (some (entry_of b null (first_of back null))))
            p
            (some (entry_of b null null)))
          front
          back
  cleared queue front back alone last r =
      let next : Ptr = first_of back null in
      let cell1 : Heap = update queue.cell p (some (entry_of b null next)) in
      let off_front = IsApart-front front back p b alone.apart in
      let keep =
        λ (prev : Ptr) (next' : Ptr) (xs : Cells) (off : IsApart p xs)
            (s : IsSegment queue.cell prev next' xs).
          frame cell1 p (some (entry_of b null null)) prev next' xs off
            (frame queue.cell p (some (entry_of b null next)) prev next' xs off s) in
      record {
        rest = record {
          front = r.first ∙ sym (first_of-append front back null);
          back = last ∙ sym (last_of-append null front back);
          linked =
              join (update cell1 p (some (entry_of b null null))) null null front back
                (keep null next front off_front r.before)
                (keep (last_of null front) null back alone.backs.0 r.behind);
          distinct =
              AreDistinct-join front back alone.fronts alone.backs.1
                (AllApart-tail front back p b alone.apart);
        };
        ne_null = alone.ne_null;
        there = ground arith;
        apart = All-append (λ x. x.0 ≢ p) front back off_front alone.backs.0;
      }

  pub remove_entry_lem :
      (queue : Queue) (front back : Cells)
      → Represents queue (front ++ ((p, b) ∷ back))
      → (queue' : Queue) × (remove_entry queue p ≡ ok queue') × Removed queue' front back
  unfolding remove_entry
  remove_entry_lem queue front back r =
      let (before, here) = split queue.cell null null front ((p, b) ∷ back) r.linked in
      let (fronts, backs, apart) = AreDistinct-split front ((p, b) ∷ back) r.distinct in
      let alone : IsAlone front p b back = record {
        ne_null = here.0;
        fronts = fronts;
        backs = backs;
        apart = apart;
      } in
      let (queue1, run1, last1, around1) = unlink_prev_lem queue front back alone (record {
        first = r.front ∙ first_of-append front ((p, b) ∷ back) null;
        before = before;
        there = here.1;
        behind = here.2;
      }) in
      let (queue2, run2, last2, around2) =
        unlink_next_lem queue1 front back alone around1
          (last1 ∙ r.back ∙ last_of-append null front ((p, b) ∷ back)) in
      let next : Ptr = first_of back null in
      let queue3 : Queue = store queue2 p (some (entry_of b null next)) in
      let there3 : queue3.cell p ≡ some (entry_of b null next) = ground arith in
      (
        store queue3 p (some (entry_of b null null)),
        rw
            (
              load_lem queue p (entry_of b (last_of null front) next) here.0 here.1,
              run1,
              load_lem queue1 p (entry_of b (last_of null front) next) here.0 around1.there,
              run2,
              set_prev_lem queue2 p null (entry_of b (last_of null front) next) here.0
                  around2.there,
            )
            (set_next_lem queue3 p null (entry_of b null next) here.0 there3),
        cleared queue2 front back alone last2 around2,
      )

  -- `mc_buffer_queue_remove_entry` takes the entry out, wherever in the queue it stands, and frees it:
  -- the others stay, in their order, and the one behind it is returned.
  pub remove_and_free-Represents :
      (queue : Queue) (front back : Cells)
      → Represents queue (front ++ ((p, b) ∷ back))
      → (queue' : Queue) × (remove_and_free queue p ≡ ok (first_of back null, queue'))
        × Represents queue' (front ++ back)
        × (queue'.cell p ≡ none)
  unfolding remove_and_free free_entry
  remove_and_free-Represents queue front back r =
      let (queue1, run, removed) = remove_entry_lem queue front back r in
      let (before, here) = split queue.cell null null front ((p, b) ∷ back) r.linked in
      let not_null : (p == null) ≡ false = ground (arith, here.0) in
      (
        store queue1 p none,
        rw
            (
              not_null,
              load_lem queue p (entry_of b (last_of null front) (first_of back null)) here.0 here.1,
              run,
              load_lem queue1 p (entry_of b null null) here.0 removed.there,
            )
            refl,
        record {
          front = removed.rest.front;
          back = removed.rest.back;
          linked =
              frame queue1.cell p none null null (front ++ back) removed.apart removed.rest.linked;
          distinct = removed.rest.distinct;
        },
        ground arith,
      )
