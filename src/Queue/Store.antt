-- ===== src/Queue/Store.antt =====
-- A write to the content of an entry, on the list that the queue stands for.
use mcoap.Base.{◌≡◌, sym, ◌∙◌, Option, some, ◌∷◌, ◌++◌, arith}
use mcoap.Base.Run.{ok}
use mcoap.Queue.{Ptr, null, Body, Entry, Queue, load, store, update}
use mcoap.Queue.Segment.{
  Cells, first_of, last_of, entry_of, split, join, frame, first_of-append, last_of-append,
  AreDistinct-split, AreDistinct-join, IsApart-front,
}
use mcoap.Queue.Refine.{Represents, load_lem}

module _ (queue : Queue) (front back : Cells) (p : Ptr) (b c : Body)
    (r : Represents queue (front ++ ((p, b) ∷ back))) where
  abbrev pub stored : Queue
  stored = store queue p (some (entry_of c (last_of null front) (first_of back null)))

  -- The entry as it is read, and the queue with a new content in its place.
  pub store-Represents :
      (load queue p ≡ ok (entry_of b (last_of null front) (first_of back null)))
      × Represents stored (front ++ ((p, c) ∷ back))
  store-Represents =
      let (before, here) = split queue.cell null null front ((p, b) ∷ back) r.linked in
      let (apart_front, apart_back, apart) = AreDistinct-split front ((p, b) ∷ back) r.distinct in
      let new : Option Entry = some (entry_of c (last_of null front) (first_of back null)) in
      (
        load_lem queue p (entry_of b (last_of null front) (first_of back null)) here.0 here.1,
        record {
          front =
              r.front
              ∙ first_of-append front ((p, b) ∷ back) null
              ∙ sym (first_of-append front ((p, c) ∷ back) null);
          back =
              r.back
              ∙ last_of-append null front ((p, b) ∷ back)
              ∙ sym (last_of-append null front ((p, c) ∷ back));
          linked =
              join (update queue.cell p new) null null front ((p, c) ∷ back)
                (frame queue.cell p new null p front (IsApart-front front back p b apart) before)
                (here.0, ground arith, frame queue.cell p new p null back apart_back.0 here.2);
          distinct = AreDistinct-join front ((p, c) ∷ back) apart_front apart_back apart;
        },
      )
