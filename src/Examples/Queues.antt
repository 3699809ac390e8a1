-- ===== src/Examples/Queues.antt =====
-- A queue of two messages, and timeouts.
use mcoap.Base.{ℕ, ◌≡◌, ◌⊎◌, ◌*◌, ◌/◌, refl, none, some, [], ◌∷◌, ◌++◌, arith, ◌==◌, if◌then◌else◌}
use mcoap.Base.Int.{pos, ◌+ℤ◌}
use mcoap.Base.Run.{ok}
use mcoap.Timeout
use mcoap.Timeout.Passed.{get_passed}
use mcoap.Timeout.{Timeout, Clock, second, unlimited}
use mcoap.Queue.{
  null, Body, Queue, Addition, new_entry, add, remove_and_free, remove, is_out, timeout,
}
use mcoap.Queue.Segment.{Cells, entry_of}
use mcoap.Queue.Refine.{Represents, add-Represents}
use mcoap.Queue.Remove.{remove_and_free-Represents}
use mcoap.Queue.Scan.{Found, NoneOf}
use mcoap.Queue.Lookup.{has_msgid, remove-Represents, timeout-Represents}

-- At a number of seconds, where all results are exact.
abbrev pub at_second : ℕ → Clock
at_second n = record {
  now = pos (n * second);
  rounding = record { round = λ z. z; ratio = λ a b. pos (a * second / b) };
}

abbrev pub timer : Timeout
timer = record { block = unlimited; total = pos (2 * second); start = pos 0 }

abbrev pub waiting_body : ℕ → Body
waiting_body msgid = record {
  msgid = msgid;
  xmitcounter = 1;
  dest = none;
  timeout = timer;
  resultfn = 100;
  msg = some (record { nbytes = 1; bytes = some (msgid ∷ []) });
}

abbrev pub two_cells : Cells
two_cells = (1, waiting_body 7) ∷ (2, waiting_body 8) ∷ []

abbrev pub two_queue : Queue
two_queue = record {
  first = 1;
  last = 2;
  cell = λ p.
      if p == 1
      then some (entry_of (waiting_body 7) 0 2)
      else if p == 2
      then some (entry_of (waiting_body 8) 1 0)
      else none;
}

pub two_queue-Represents : Represents two_queue two_cells
two_queue-Represents = record {
  front = refl;
  back = refl;
  linked = (omega arith, refl, (omega arith, refl, tt));
  distinct = ((omega arith, tt), (tt, tt));
}

abbrev third : Addition
third = record {
  fresh = 3;
  now = pos 5;
  wait = pos (2 * second);
  timeout = timer;
  msgid = 9;
  dest = none;
  msg = none;
  resultfn = null;
}

add-Represents_example :
    (queue' : Queue) × (add two_queue third ≡ ok (3, queue'))
    × Represents queue' (two_cells ++ ((3, (new_entry third null).body) ∷ []))
add-Represents_example =
    add-Represents two_queue two_cells third two_queue-Represents (omega arith) refl

remove_and_free-Represents_example :
    (queue' : Queue) × (remove_and_free two_queue 1 ≡ ok (2, queue'))
    × Represents queue' ((2, waiting_body 8) ∷ [])
    × (queue'.cell 1 ≡ none)
remove_and_free-Represents_example =
    remove_and_free-Represents 1 (waiting_body 7) two_queue [] ((2, waiting_body 8) ∷ [])
      two_queue-Represents

remove-Represents_example :
    ((f : Found (has_msgid 8) two_cells) × (queue' : Queue) × (remove 3 two_queue 8
        ≡ ok (8, queue'))
      × Represents queue' (f.front ++ f.back)
      × (queue'.cell f.address ≡ none))
    ⊎ (NoneOf (has_msgid 8) two_cells × (remove 3 two_queue 8 ≡ ok (4294967295, two_queue)))
remove-Represents_example =
    remove-Represents two_queue two_cells two_queue-Represents 3 (omega arith) 8

timeout-Represents_example :
    ((f : Found (is_out (λ p. at_second 3)) two_cells) × (queue' : Queue) × (timeout
          (λ p. at_second 3)
          3
          two_queue
        ≡ ok (f.address, queue'))
      × Represents queue' (f.front ++ f.back)
      × (queue'.cell f.address ≡ some (entry_of f.body null null)))
    ⊎ (NoneOf (is_out (λ p. at_second 3)) two_cells
        × (timeout (λ p. at_second 3) 3 two_queue ≡ ok (null, two_queue)))
timeout-Represents_example =
    timeout-Represents two_queue two_cells two_queue-Represents 3 (omega arith) (λ p. at_second 3)

get_passed_example : Timeout.get (at_second 3) timer ≡ pos 0
unfolding ◌+ℤ◌
get_passed_example =
    get_passed (at_second 3) timer (record { keeps = λ a b h. h }) refl refl (omega arith) refl
