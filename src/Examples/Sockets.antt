-- ===== src/Examples/Sockets.antt =====
-- A system that interrupts the first call and moves five bytes in the second.
use mcoap.Base.{ℕ, zero, suc, ◌≡◌, ◌≤◌, refl, true, false, arith}
use mcoap.Base.Int.{pos, negsuc}
use mcoap.Base.Run.{ok}
use mcoap.Timeout.{Timeout, second, unlimited}
use mcoap.Examples.Queues.{at_second}
use mcoap.Socket.{Codes, Reply, System, waitfd, waitfd_loop, same_ℤ, sendto}
use mcoap.Socket.Transfer.{IsFair, IsDecided, sendto-IsDecided}

abbrev codes : Codes
codes = record {
  eintr = pos 4;
  eagain = pos 11;
  epipe = pos 32;
  econnaborted = pos 103;
  einprogress = pos 115;
}

abbrev calls : ℕ → Reply
calls zero = record { ret = negsuc 0; errno = pos 4 }
calls (suc k) = record { ret = pos 5; errno = pos 0 }

abbrev system : System
system = record {
  call = calls;
  select = λ k n left. record { ret = pos 1; errno = pos 0 };
  readable = λ k. true;
  clock = λ k n. at_second 0;
}

abbrev tout : Timeout
tout = record { block = pos second; total = unlimited; start = pos 0 }

ended : (left k : ℕ) → waitfd codes system tout (suc left) k false ≡ ok (pos 0)
unfolding waitfd waitfd_loop
ended left k = refl

fair : IsFair codes system tout 1
fair = record { answer = λ k. pos 0; ends = ends }
  where
    ends : (left k : ℕ) → 1 ≤ left → waitfd codes system tout left k false ≡ ok (pos 0)
    ends zero k h = absurd (omega arith)
    ends (suc left) k h = ended left k

sendto-IsDecided_example :
    IsDecided codes system
      (λ r. same_ℤ r.errno codes.epipe)
      fair.answer
      0
      1
      (sendto codes system tout (pos 3) 3)
sendto-IsDecided_example =
    sendto-IsDecided codes system tout 1 fair (pos 3) 3 1 (omega arith) refl refl
