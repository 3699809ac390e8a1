-- ===== src/Examples/Endpoints.antt =====
-- An endpoint on which two messages wait.
use mcoap.Base.{ℕ, ◌*◌, true, ◌≤◌, ◌<◌, ◌≡◌, ◌≢◌, refl, none, some, List, [], ◌∷◌, arith, length}
use mcoap.Base.Int.{pos}
use mcoap.Base.Run.{ok, fault}
use mcoap.Header
use mcoap.Timeout.{second}
use mcoap.Sockaddr.{Sockaddr, is_done, mn_timeout}
use mcoap.Message
use mcoap.Message.{Message}
use mcoap.Message.Encode.Wire.{wire}
use mcoap.Queue.Segment.{Cells}
use mcoap.Queue.Refine.{Represents}
use mcoap.Endpoint.{Endpoint}
use mcoap.Endpoint.Ids.{id_after, next_id-distinct}
use mcoap.Endpoint.Send.{Net, Slot, Times, check_queues}
use mcoap.Endpoint.Send.Plain.{datagram}
use mcoap.Endpoint.Send.Again.{swept, check_queues-swept}
use mcoap.Endpoint.Sound.{IsWaiting, IsSound, check_queues-IsSound}
use mcoap.Endpoint.Receive.{Reading, Arrival, recv}
use mcoap.Endpoint.Receive.Confirmation.{recv-short}
use mcoap.Examples.Sorting.{qsort}
use mcoap.Examples.Data.{two_options, options_list, zeros, empty_buffer, empty_buffer-Holds}
use mcoap.Examples.Queues.{
  timer, waiting_body, two_cells, two_queue, two_queue-Represents, at_second,
}
use mcoap.Examples.Uris.{nowhere}

abbrev pub endpoint : Endpoint
endpoint = record {
  thread = 0;
  tmout = timer;
  readfn = 0;
  rdbuffer = empty_buffer;
  wrbuffer = empty_buffer;
  confirmq = two_queue;
  running = pos 0;
  nextid = 7;
  trace = [];
}

pub endpoint-IsSound : IsSound endpoint two_cells
endpoint-IsSound = record { queue = two_queue-Represents; waiting = (waits 7, (waits 8, tt)) }
  where
    waits : (msgid : ℕ) → IsWaiting (waiting_body msgid)
    waits msgid = record {
      sendable = record {
        buffer = record { nbytes = 1; bytes = some (msgid ∷ []) };
        there = refl;
        held = omega arith;
      };
      count = omega arith;
    }

-- Every datagram is sent.
abbrev pub net : Net
net trace bytes to = pos 0

abbrev pub slot : Slot
slot = record { fresh = 3; wait = pos (2 * second); queued = pos 1; sending = pos 2 }

-- At three seconds.
abbrev times : Times
times = record {
  tested = λ p. at_second 3;
  restarted = λ p. pos (3 * second);
  sending = λ p. pos (3 * second);
}

-- A message of the given first byte, and its header.
abbrev message_with : ℕ → Message Sockaddr
message_with header = record {
  header = header;
  token = some (record { nbytes = 1; bytes = some (9 ∷ []) });
  options = some options_list;
  payload = some (record { nbytes = 1; bytes = some (42 ∷ []) });
  source = none;
}

abbrev confirmable : Message Sockaddr
confirmable = message_with 0x41020007

abbrev plain : Message Sockaddr
plain = message_with 0x51020007

abbrev acknowledgement : Message Sockaddr
acknowledgement = message_with 0x60000008

abbrev bytes_of : Message Sockaddr → List ℕ
unfolding wire
bytes_of message = datagram empty_buffer (wire message.header (9 ∷ []) two_options (42 ∷ []))

check_queues-swept_example :
    (endpt' : Endpoint) × (check_queues net times 3 endpoint ≡ ok endpt')
    × Represents endpt'.confirmq (swept net times two_cells []).0
    × (endpt'.trace ≡ (swept net times two_cells []).1)
    × (endpt'.running ≡ pos 0)
check_queues-swept_example =
    check_queues-swept net times 3 endpoint two_cells two_queue-Represents
      (endpoint-IsSound.waiting.0.sendable, (endpoint-IsSound.waiting.1.0.sendable, tt))
      (omega arith)

check_queues-IsSound_example :
    (endpt' : Endpoint) × (xs' : Cells) × (check_queues net times 3 endpoint ≡ ok endpt')
    × IsSound endpt' xs'
    × (length xs' ≤ 2)
check_queues-IsSound_example =
    check_queues-IsSound net times 3 endpoint two_cells endpoint-IsSound (omega arith)

abbrev pub reading : Reading
reading = record { qsort = qsort; counting = λ p. 0; reading = λ p. 0 }

-- Where the wait timed out there are no bytes.
pub no_bytes : is_done mn_timeout ≡ true → 0 < length {A = ℕ} []
no_bytes e = cc

abbrev short_arrival : Arrival
short_arrival = record {
  now = pos 0;
  err = pos 0;
  bytes = 0x40 ∷ 1 ∷ [];
  sender = nowhere;
  some_byte = λ e. omega arith;
}

recv-short_example : recv reading 3 endpoint short_arrival ≡ fault
recv-short_example =
    recv-short reading 3 endpoint short_arrival zeros empty_buffer-Holds refl (omega arith)
      (omega arith)

next_id-distinct_example :
    (id_after 0 endpoint ≢ 0)
    × (id_after 0 endpoint < 65536)
    × (id_after 0 endpoint ≢ id_after 65534 endpoint)
next_id-distinct_example =
    next_id-distinct endpoint 0 65534 (omega arith) (omega arith) (omega arith) (omega arith)
