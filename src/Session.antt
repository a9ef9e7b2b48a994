-- ===== src/Session.antt =====
-- server/worker.c: a client that has authenticated. This file has the session's state and what is
-- sent to the client; Session/Inbound.antt has what it sends. A buffer is the list of the bytes that
-- it holds. `temp_send_storage` and the two queues are those of `std_client`, a queue as the list of
-- its messages in the order in which they leave it.
pub mod Message
pub mod Outbound
pub mod Inbound
pub mod Handler
pub mod Sending
pub mod Response
pub mod Pending
pub mod Control
pub mod Delivery
pub mod Queued
pub mod Filling
pub mod Bounds
pub mod Calls
pub mod Whole
pub mod Stuck
mod Tests
use Prim.Native.Char.{code}
use Prim.Native.String
use Prim.Native.String.{String}
use lwmsg.Base.{
  ℕ, zero, suc, ◌+◌, ◌-◌, Bool, true, false, Ordering, Option, none, some, List, [], ◌∷◌, ◌++◌, ltb,
  ◌==◌, if◌then◌else◌, length, take, drop, replicate, ◌>>=◌,
}
use lwmsg.Base.Memory.{be32}
use lwmsg.Netwrap.{Recv, Sent, send_error, send_block, sent}
use lwmsg.ClHandle.{strncmp}
use lwmsg.Lwmp.{
  lwmp_hdr_size, lwmp_prepare_response, mt_none, mt_info, uname_size, resp_codes, hv_inval_subj,
}

-- `curr_recv_msg`: `recvbuf` is the first `buf_data_offset` bytes of the buffer.
pub record CurrRecvMsg : Type 0 where
  pub recvbuf : List ℕ
  pub expected_msg_size : ℕ
  pub total_msg_data_recved : ℕ
  pub msg_type : ℕ
  pub not_msg_init_pdu : Bool
  pub is_desynced : Bool
  pub dest_uname : List ℕ

-- The fields of `mpsc_msg_node` that a session uses.
pub record Outgoing : Type 0 where
  pub buf : List ℕ
  pub buf_offset : ℕ
  pub subject_name : List ℕ

-- `recv_calls` and `send_calls` count the calls of recv_fn and send_fn. `relayed` are the messages
-- that went into a client's user data queue, with that client's name, a message to the session's own
-- client included, and `wire` the bytes that send_fn took, both oldest first. `disconnected` stands for the state DISCONNECTED, where
-- cleanup_std_client leaves an authenticated client; `want_out` and `queue_in` for EPOLLOUT of the
-- socket and EPOLLIN of the user data queue.
pub record Session : Type 0 where
  pub storage : CurrRecvMsg
  pub temp_send_storage : Option Outgoing
  pub pending_ctrl_queue : List Outgoing
  pub pending_userdata_queue : List Outgoing
  pub relayed : List (List ℕ × Outgoing)
  pub wire : List ℕ
  pub recv_calls : ℕ
  pub send_calls : ℕ
  pub disconnected : Bool
  pub want_out : Bool
  pub queue_in : Bool

-- `net_fns`: the answers of recv_fn and send_fn by the number of the call, and by the number of bytes
-- asked for or the bytes offered.
pub record NetFns : Type 0 where
  pub recv_fn : ℕ → ℕ → Recv
  pub send_fn : ℕ → List ℕ → Sent

-- cleanup_std_client for the state AUTHENTICATED.
abbrev pub disconnect : Session → Session
disconnect s = record s { disconnected = true }

-- The bytes of a message that are still to be sent.
abbrev pub unsent : Outgoing → List ℕ
unsent msg = drop msg.buf_offset msg.buf

abbrev pub send_answer : NetFns → Session → Outgoing → Sent
send_answer nfn s msg = nfn.send_fn s.send_calls (unsent msg)

-- `buf_offset += data_sent`, after a call of send_fn.
abbrev pub advance : Session → Outgoing → ℕ → Session
advance s msg n = record s {
  send_calls = s.send_calls + 1;
  wire = s.wire ++ take n (unsent msg);
  temp_send_storage = some (record msg { buf_offset = msg.buf_offset + n });
}

abbrev pub called_send : Session → Session
called_send s = record s { send_calls = s.send_calls + 1 }

-- The message is sent and freed.
abbrev pub sent_whole : Session → Session
sent_whole s = record s { temp_send_storage = none }
