-- ===== src/Client.antt =====
-- client/client.h: the state of the client. What it does to the terminal and to files is a list of
-- events, and what the system answers is an argument.
pub mod Filename
pub mod Receive
pub mod Parse
pub mod Frame
pub mod Rest
pub mod Fields
pub mod Steps
pub mod Stream
pub mod Pieces
pub mod Transfer
pub mod WholeFile
pub mod Relayed
pub mod RelayedPdu
pub mod Command
pub mod TextPdu
pub mod Told
pub mod Sends
pub mod EndToEnd
pub mod SafeName
pub mod SafeEvents
pub mod SafeLoops
pub mod Overfull
pub mod Shorter
pub mod SafeReach
pub mod Ends
pub mod Spoiled
mod Samples
mod Tests
use lwmsg.Base.{
  ℕ, zero, suc, ◌+◌, ◌*◌, Bool, true, false, Option, none, some, List, [], ◌∷◌, ◌++◌, ◌==◌, ◌&&◌,
  if◌then◌else◌, set,
}
use lwmsg.Lwmp.{lwmp_max_pdu_size}
use lwmsg.Netwrap.{Recv}
unfoldable pub use lwmsg.Session.Inbound.{str_eq}

abbrev pub recv_buf_size : ℕ
recv_buf_size = lwmp_max_pdu_size * 4

abbrev pub user_cache_max : ℕ
user_cache_max = 25600

abbrev pub max_active_transfers : ℕ
max_active_transfers = 8

-- A call of clio_print, of fopen for writing, of fwrite or of fclose. A stream is known by the number
-- of the fopen that made it.
pub data Event : Type 0 where
  said : List ℕ → List ℕ → Event
  server_text : List ℕ → ℕ → Event
  server_code : ℕ → Event
  online_users : List (List ℕ) → Event
  too_many_transfers disconnected : Event
  create_failed : List ℕ → Event
  receiving_file received_file : List ℕ → List ℕ → ℕ → Event
  unknown_type : ℕ → Event
  fopen : ℕ → List ℕ → Event
  fwrite : ℕ → List ℕ → Event
  fclose : ℕ → Event

-- `file_transfer`.
pub record FileTransfer : Type 0 where
  pub active : Bool
  pub fp : Option ℕ
  pub expected_size : ℕ
  pub received : ℕ
  pub sender : List ℕ
  pub filename : List ℕ

-- `client_ctx`. `recv_buf` are the first `recv_len` bytes of the buffer, `opened` counts the calls of
-- fopen that gave a stream, and `events` are oldest first.
pub record ClientCtx : Type 0 where
  pub connected : Bool
  pub username : List ℕ
  pub server_host : List ℕ
  pub recv_buf : List ℕ
  pub awaiting_resp : Bool
  pub last_resp_code : ℕ
  pub sending_chunks : Bool
  pub transfer_error : Bool
  pub transfers : List FileTransfer
  pub user_cache : List (List ℕ)
  pub opened : ℕ
  pub recv_calls : ℕ
  pub wait_calls : ℕ
  pub events : List Event

-- What wait_readable answers.
pub data Readable : Type 0 where
  readable timed_out poll_failed : Readable

-- poll: more than 0, 0, an error, or EINTR.
pub data PollCall : Type 0 where
  poll_ready poll_nothing poll_error poll_eintr : PollCall

-- The answers of recv_fn and of avail_data_fn by the number of the call of it or of wait_readable, those
-- of poll by that and the round of its loop, and those of access and fopen by what went before and the
-- name.
pub record Outside : Type 0 where
  pub recv_fn : ℕ → ℕ → Recv
  pub avail_data_fn : ℕ → Bool
  pub poll : ℕ → ℕ → PollCall
  pub access : List Event → List ℕ → Bool
  pub fopen_ok : List Event → List ℕ → Bool

abbrev pub emit : ClientCtx → Event → ClientCtx
emit ctx e = record ctx { events = ctx.events ++ e ∷ [] }
