-- ===== src/MsgQueue.antt =====
-- server/thrdmsg_mpscq.h and server/thrdmsg_mpscq.c: the queue of messages between threads, doubly
-- linked, newest message first. A node pointer is a number, 0 is NULL, and `at` is the memory that
-- the pointers reach. The mutex makes each operation one step. `eventfd` is the value of the counter
-- that eventfd_write raises and eventfd_read, of a semaphore, lowers by one unless it is 0.
pub mod Chain
pub mod Fifo
mod Tests
use lwmsg.Base.{
  ℕ, zero, suc, ◌+◌, ◌-◌, Ordering, Bool, true, false, not, Option, none, some, List, ◌==◌,
  if◌then◌else◌,
}
use lwmsg.ClHandle.{strncmp}
use lwmsg.Lwmp.{uname_size}

-- The fields of `mpsc_msg_node` that the queue reads or writes.
pub record MsgNode : Type 0 where
  pub next : ℕ
  pub prev : ℕ
  pub subject_name : List ℕ

pub data MsgqMode : Type 0 where
  mode_spsc mode_mpsc : MsgqMode

-- `mpsc_msg_queue`: `head` is `head.next`. `freed` holds what was given to free.
pub record MsgQueue : Type 0 where
  pub head : ℕ
  pub tail : ℕ
  pub eventfd : ℕ
  pub qmode : MsgqMode
  pub at : ℕ → MsgNode
  pub freed : List ℕ

abbrev pub update_node : (ℕ → MsgNode) → ℕ → MsgNode → ℕ → MsgNode
update_node at p v q = if q == p then v else at q

abbrev pub set_next : (ℕ → MsgNode) → ℕ → ℕ → ℕ → MsgNode
set_next at p v = update_node at p (record (at p) { next = v })

abbrev pub set_prev : (ℕ → MsgNode) → ℕ → ℕ → ℕ → MsgNode
set_prev at p v = update_node at p (record (at p) { prev = v })

-- eventfd_write by one and eventfd_read, where the mode has the counter.
abbrev pub raise : MsgqMode → ℕ → ℕ
raise mode_spsc n = n
raise mode_mpsc n = n + 1

abbrev pub lower : MsgqMode → ℕ → ℕ
lower mode_spsc n = n
lower mode_mpsc n = n - 1

-- The branch of mpscq_enqueue for an empty queue.
abbrev pub first_message : MsgQueue → ℕ → MsgQueue
first_message q msg = record q {
  tail = msg;
  head = msg;
  at = set_next (set_prev q.at msg 0) msg 0;
  eventfd = raise q.qmode q.eventfd;
}

-- Its branch for a queue that has messages.
abbrev pub next_message : MsgQueue → ℕ → MsgQueue
next_message q msg = record q {
  at = set_prev (set_next (set_prev q.at msg 0) msg q.head) q.head msg;
  head = msg;
  eventfd = raise q.qmode q.eventfd;
}

unfoldable pub mpscq_enqueue : MsgQueue → ℕ → MsgQueue
mpscq_enqueue q msg =
    if msg == 0 then q else if q.head == 0 then first_message q msg else next_message q msg

-- The branch of mpscq_dequeue for the only message.
abbrev pub take_only : MsgQueue → MsgQueue
take_only q = record q {
  head = 0;
  tail = 0;
  at = set_prev q.at q.tail 0;
  eventfd = lower q.qmode q.eventfd;
}

-- Its branch for a message that has another before it.
abbrev pub take_last : MsgQueue → MsgQueue
take_last q =
    let before = (q.at q.tail).prev in
    record q {
      tail = before;
      at = set_prev (set_next q.at before 0) q.tail 0;
      eventfd = lower q.qmode q.eventfd;
    }

-- The result is the node, or 0 for NULL.
unfoldable pub mpscq_dequeue : MsgQueue → ℕ × MsgQueue
mpscq_dequeue q =
    if q.tail == 0
    then (0, q)
    else if (q.at q.tail).prev == 0
    then (q.tail, take_only q)
    else (q.tail, take_last q)
