-- ===== src/Queue.antt =====
-- mcoap/mc_buffer_queue.c: the queue of messages that wait to be confirmed, a doubly linked list in
-- the heap. A read or a write through null, or of an entry that was freed, is a fault. The address that
-- `calloc` returns, the number that `rand` returns and the time are arguments.
pub mod Segment
pub mod Refine
pub mod Remove
pub mod Store
pub mod Scan
pub mod Lookup
use mcoap.Base.{
  ℕ, zero, suc, ◌+◌, ◌-◌, ◌*◌, ◌/◌, Bool, true, false, not, Option, none, some, add32, to_u16, ◌==◌,
  if◌then◌else◌,
}
use mcoap.Base.Int.{ℤ, pos, negsuc, ◌+ℤ◌}
use mcoap.Base.Run.{Run, ok, fault, stuck, ◌>>=◌}
use mcoap.Timeout
use mcoap.Timeout.{Timeout, Clock, Rounding, second, unlimited}
use mcoap.Sockaddr.{Sockaddr}
use mcoap.Buffer.{Buffer}

abbrev pub Ptr : Type 0
Ptr = ℕ

abbrev pub null : Ptr
null = 0

-- The fields of `mc_buffer_queue_entry_t` that are no links; `resultfn` is the address of a function.
pub record Body : Type 0 where
  pub msgid : ℕ
  pub xmitcounter : ℕ
  pub dest : Option Sockaddr
  pub timeout : Timeout
  pub resultfn : Ptr
  pub msg : Option Buffer

pub record Entry : Type 0 where
  pub body : Body
  pub prev : Ptr
  pub next : Ptr

-- `mc_buffer_queue_t` with the heap that its entries are in.
pub record Queue : Type 0 where
  pub first : Ptr
  pub last : Ptr
  pub cell : Ptr → Option Entry

abbrev pub update : (Ptr → Option Entry) → Ptr → Option Entry → Ptr → Option Entry
update cell p entry q = if q == p then entry else cell q

unfoldable pub load : Queue → Ptr → Run Entry
load queue p =
    if p == null then fault else elim (queue.cell p) [ none ↦ fault | some entry ↦ ok entry ]

abbrev pub store : Queue → Ptr → Option Entry → Queue
store queue p entry = record queue { cell = update queue.cell p entry }

-- `p->next = q`, `p->prev = q`
unfoldable pub set_next : Queue → Ptr → Ptr → Run Queue
unfolding load
set_next queue p q = do entry ← load queue p; ok (store queue p (some (record entry { next = q })))

unfoldable pub set_prev : Queue → Ptr → Ptr → Run Queue
unfolding load
set_prev queue p q = do entry ← load queue p; ok (store queue p (some (record entry { prev = q })))

unfoldable pub set_first : Queue → Ptr → Queue
set_first queue p = record queue { first = p }

unfoldable pub set_last : Queue → Ptr → Queue
set_last queue p = record queue { last = p }

-- `ACK_TIMEOUT` seconds, 2.0, and a part of half of that more: of 1.0, by which a product is exact.
-- `rand_max` is `RAND_MAX`.
unfoldable pub mk_timeout : Rounding → ℕ → ℕ → ℤ
mk_timeout r rand_max rand = r.round (pos (2 * second) +ℤ r.ratio rand rand_max)

unfoldable pub queue_entry_init :
    ℤ → ℤ → Timeout → ℕ → Option Sockaddr → Option Buffer → Ptr → Ptr → Ptr → Entry
queue_entry_init now wait timeout msgid dest msg resultfn prev next = record {
  body = record {
    msgid = to_u16 msgid;
    xmitcounter = 0;
    dest = dest;
    timeout = Timeout.markstart now (Timeout.init timeout unlimited wait);
    resultfn = resultfn;
    msg = msg;
  };
  prev = prev;
  next = next;
}

-- `mc_buffer_queue_init`
unfoldable pub init : Queue → Queue
init queue = record queue { first = null; last = null }

-- What is given for a message that is added: the address and the fields of its entry, and how long to
-- wait from when on.
pub record Addition : Type 0 where
  pub fresh : Ptr
  pub now : ℤ
  pub wait : ℤ
  pub timeout : Timeout
  pub msgid : ℕ
  pub dest : Option Sockaddr
  pub msg : Option Buffer
  pub resultfn : Ptr

abbrev pub new_entry : Addition → Ptr → Entry
new_entry a prev = queue_entry_init a.now a.wait a.timeout a.msgid a.dest a.msg a.resultfn prev null

unfoldable pub add : Queue → Addition → Run (Ptr × Queue)
unfolding set_next
add queue a =
    if queue.first == null
    then ok (
      a.fresh,
      set_last (set_first (store queue a.fresh (some (new_entry a null))) a.fresh) a.fresh,
    )
    else (do
      linked ← set_next (store queue a.fresh (some (new_entry a queue.last))) queue.last a.fresh
      ok (a.fresh, set_last linked a.fresh))

unfoldable pub count_loop : ℕ → Queue → Ptr → ℕ → Run ℕ
count_loop zero queue current count = stuck
count_loop (suc fuel) queue current count =
    if current == null
    then ok count
    else (do entry ← load queue current; count_loop fuel queue entry.next (add32 count 1))

unfoldable pub count : ℕ → Queue → Run ℕ
count fuel queue = count_loop fuel queue queue.first 0

-- The first half of `remove_entry`: what stands before the entry is linked to what stands behind it.
unfoldable pub unlink_prev : Queue → Entry → Run Queue
unlink_prev queue entry =
    if entry.prev == null
    then ok (set_first queue entry.next)
    else set_next queue entry.prev entry.next

unfoldable pub unlink_next : Queue → Entry → Run Queue
unlink_next queue entry =
    if entry.next == null
    then ok (set_last queue entry.prev)
    else set_prev queue entry.next entry.prev

unfoldable pub remove_entry : Queue → Ptr → Run Queue
remove_entry queue p = do
  current ← load queue p
  queue1 ← unlink_prev queue current
  current1 ← load queue1 p
  queue2 ← unlink_next queue1 current1
  queue3 ← set_prev queue2 p null
  set_next queue3 p null

-- `queue_entry_deinit` clears the fields and frees what they point to; then the entry itself is freed.
unfoldable pub free_entry : Queue → Ptr → Run Queue
free_entry queue p = do entry ← load queue p; ok (store queue p none)

-- `mc_buffer_queue_remove_entry`: the next entry, and the queue without this one.
unfoldable pub remove_and_free : Queue → Ptr → Run (Ptr × Queue)
remove_and_free queue p = if p == null then ok (null, queue) else (do
  entry ← load queue p
  queue1 ← remove_entry queue p
  queue2 ← free_entry queue1 p
  ok (entry.next, queue2))

unfoldable pub get_loop : ℕ → Queue → Ptr → ℕ → Run Ptr
get_loop zero queue current msgid = stuck
get_loop (suc fuel) queue current msgid = if current == null then ok null else (do
  entry ← load queue current
  let rest = get_loop fuel queue entry.next msgid
  if entry.body.msgid == msgid then ok current else rest)

unfoldable pub get : ℕ → Option Queue → ℕ → Run Ptr
get fuel none msgid = ok null
get fuel (some queue) msgid = get_loop fuel queue queue.first msgid

-- `mc_buffer_queue_remove`; `UINT32_MAX` where there is no entry of the message.
unfoldable pub remove : ℕ → Queue → ℕ → Run (ℕ × Queue)
remove fuel queue msgid = do
  entry ← get fuel (some queue) msgid
  if entry == null
      then ok (4294967295, queue)
      else (do (next, queue') ← remove_and_free queue entry; ok (msgid, queue'))

-- `mc_buffer_queue_free`
unfoldable pub free_all : ℕ → Queue → Run Queue
free_all zero queue = stuck
free_all (suc fuel) queue =
    if queue.first == null
    then ok queue
    else (do (next, queue') ← remove_and_free queue queue.first; free_all fuel queue')

-- `mn_timeout_get(...) == 0.0`. `clock p` is the time when the entry at `p` is looked at.
abbrev pub is_zero : ℤ → Bool
is_zero (pos n) = n == 0
is_zero (negsuc n) = false

unfoldable pub is_out : (Ptr → Clock) → Ptr → Body → Bool
is_out clock p body = is_zero (Timeout.get (clock p) body.timeout)

-- `mc_buffer_queue_next_timeout`
unfoldable pub next_timeout : (Ptr → Clock) → ℕ → Queue → Ptr → Run Ptr
next_timeout clock zero queue current = stuck
next_timeout clock (suc fuel) queue current = if current == null then ok null else (do
  entry ← load queue current
  let rest = next_timeout clock fuel queue entry.next
  if is_out clock current entry.body then ok current else rest)

-- `mc_buffer_queue_has_timeout`
unfoldable pub has_timeout : (Ptr → Clock) → ℕ → Queue → Run Bool
has_timeout clock fuel queue = do
  entry ← next_timeout clock fuel queue queue.first
  ok (not (entry == null))

-- The loop of `mc_buffer_queue_timeout`: the first entry that has run out is taken out of the queue.
unfoldable pub timeout_loop : (Ptr → Clock) → ℕ → Queue → Ptr → Run (Ptr × Queue)
timeout_loop clock zero queue current = stuck
timeout_loop clock (suc fuel) queue current = if current == null then ok (null, queue) else (do
  entry ← load queue current
  let rest = timeout_loop clock fuel queue entry.next
  if is_out clock current entry.body
      then (do queue' ← remove_entry queue current; ok (current, queue'))
      else rest)

unfoldable pub timeout : (Ptr → Clock) → ℕ → Queue → Run (Ptr × Queue)
timeout clock fuel queue = timeout_loop clock fuel queue queue.first
