-- ===== src/Session/Inbound.antt =====
-- wt_handle_inbound_data of server/worker.c: what a client that has authenticated sends.
use lwmsg.Base.{
  true, ℕ, zero, suc, ◌+◌, ◌-◌, ◌%◌, ◌^◌, Bool, false, ◌&&◌, Option, none, some, List, [], ◌∷◌,
  ◌++◌, ltb, ◌==◌, if◌then◌else◌, length, take, set, replicate,
}
use lwmsg.Base.Memory.{write, be32, be64}
use lwmsg.Netwrap.{recv_error, recv_block, got}
use lwmsg.ClHandle.{req_user_list}
use lwmsg.Lwmp.{
  lwmp_hdr_size, lwmp_max_pdu_size, lwmp_chunk_hdr_size, lwmp_chunk_buf_size, uname_size, mt_none,
  mt_req, msg_type, subject_uname, total_msg_size, req_type, HdrValidationFns, hv_ok, hv_inval_req,
  hv_inval_subj, resp_codes, lwmp_prepare_response, lwmp_prepare_chunk, write_crc32, strncpy,
}
use lwmsg.Session.{CurrRecvMsg, Outgoing, Session, NetFns}
use lwmsg.Session.Message.{xmalloc, msg_node_create, text_message, text_bytes}

pub data WtStatus : Type 0 where
  wt_dconn wt_stop_eblk wt_stop_border : WtStatus

-- What the handler asks of the rest of the server: the functions and limits of the header's validation,
-- the names for which htable_get_cond finds a client, and the keys that htable_copy_all_keys copies.
pub record Server : Type 0 where
  pub hvfns : HdrValidationFns (Unit {0})
  pub reach : List ℕ → Bool
  pub user_list : List ℕ
  pub username : List ℕ

-- The string that a buffer begins with.
unfoldable pub c_string : List ℕ → List ℕ
c_string [] = []
c_string (b ∷ bytes) = let rest = b ∷ c_string bytes in if b == 0 then [] else rest

-- The memset from `expected_msg_size` on, and `buf_data_offset = 0`.
abbrev pub cleared : CurrRecvMsg
cleared = record {
  recvbuf = [];
  expected_msg_size = 0;
  total_msg_data_recved = 0;
  msg_type = mt_none;
  not_msg_init_pdu = false;
  is_desynced = false;
  dest_uname = replicate uname_size 0;
}

-- `buf_data_offset += recved_data`, and the same with `total_msg_data_recved`.
abbrev pub store : CurrRecvMsg → List ℕ → CurrRecvMsg
store m bytes = record m { recvbuf = m.recvbuf ++ bytes }

abbrev pub store_counted : CurrRecvMsg → List ℕ → CurrRecvMsg
store_counted m bytes = record m {
  recvbuf = m.recvbuf ++ bytes;
  total_msg_data_recved = (m.total_msg_data_recved + length bytes) % 2 ^ 64;
}

-- How a loop over recv_fn ends.
pub data Fill : Type 0 where
  filled recv_failed blocks : Fill

abbrev pub called_recv : Session → Session
called_recv s = record s { recv_calls = s.recv_calls + 1 }

-- A loop `while (more) { recv_fn(…, ask); …; add }`.
unfoldable pub recv_loop :
    ℕ
    → NetFns
    → (CurrRecvMsg → Bool)
    → (CurrRecvMsg → ℕ)
    → (CurrRecvMsg → List ℕ → CurrRecvMsg)
    → Session
    → Option (Fill × Session)
recv_loop zero nfn more ask add s = none
recv_loop (suc fuel) nfn more ask add s =
    let round : Option (Fill × Session) = elim (nfn.recv_fn s.recv_calls (ask s.storage)) [
      | recv_error ↦ some (recv_failed, called_recv s)
      | recv_block ↦ some (blocks, called_recv s)
      | got bytes ↦
          recv_loop fuel nfn more ask add (record (called_recv s) { storage = add s.storage bytes })
    ] in
    if more s.storage then round else some (filled, s)

-- The loop for a stream out of step, which receives before it tests.
unfoldable pub recv_desynced : ℕ → NetFns → Session → Option (Fill × Session)
recv_desynced zero nfn s = none
recv_desynced (suc fuel) nfn s =
    let m = s.storage in
    elim (nfn.recv_fn s.recv_calls (lwmp_max_pdu_size - length m.recvbuf)) [
      | recv_error ↦ some (recv_failed, called_recv s)
      | recv_block ↦ some (blocks, called_recv s)
      | got bytes ↦
          let s' = record (called_recv s) { storage = store m bytes } in
          let again = recv_desynced fuel nfn s' in
          if length (m.recvbuf ++ bytes) == lwmp_max_pdu_size then some (filled, s') else again
    ]

-- The header: the bytes up to its size.
abbrev pub hdr_missing : CurrRecvMsg → Bool
hdr_missing m = ltb (length m.recvbuf) lwmp_hdr_size

abbrev pub hdr_ask : CurrRecvMsg → ℕ
hdr_ask m = lwmp_hdr_size - length m.recvbuf

-- `a < b ? a : b`.
abbrev pub min : ℕ → ℕ → ℕ
min a b = if ltb a b then a else b

-- `expected_msg_size - total_msg_data_recved`, a uint64_t.
abbrev pub data_left : CurrRecvMsg → ℕ
data_left m = (m.expected_msg_size + 2 ^ 64 - m.total_msg_data_recved) % 2 ^ 64

-- The rest of the first PDU. The sum is a uint64_t.
abbrev pub pdu_missing : CurrRecvMsg → Bool
pdu_missing m =
    ltb (length m.recvbuf) (min ((lwmp_hdr_size + m.expected_msg_size) % 2 ^ 64) lwmp_max_pdu_size)

abbrev pub pdu_ask : CurrRecvMsg → ℕ
pdu_ask m = min (data_left m) (lwmp_max_pdu_size - length m.recvbuf)

-- A chunk of what comes after the first PDU.
abbrev pub chunk_missing : CurrRecvMsg → Bool
chunk_missing m =
    ltb m.total_msg_data_recved m.expected_msg_size && ltb (length m.recvbuf) lwmp_chunk_buf_size

abbrev pub chunk_ask : CurrRecvMsg → ℕ
chunk_ask m = min (data_left m) (lwmp_chunk_buf_size - length m.recvbuf)

-- No loop receives more bytes than the buffer has.
abbrev pub recv_fuel : ℕ
recv_fuel = lwmp_max_pdu_size + 1

-- The fields of the header, read once.
unfoldable pub read_header : CurrRecvMsg → CurrRecvMsg
read_header m =
    if m.msg_type == 0 && m.expected_msg_size == 0
    then record m {
      msg_type = msg_type m.recvbuf;
      dest_uname =
          if msg_type m.recvbuf == mt_req
          then m.dest_uname
          else set (subject_uname m.recvbuf) (uname_size - 1) 0;
      expected_msg_size = total_msg_size m.recvbuf;
      total_msg_data_recved = length m.recvbuf - lwmp_hdr_size;
    }
    else m

abbrev pub set_storage : Session → CurrRecvMsg → Session
set_storage s m = record s { storage = m }

-- strcmp for equality.
unfoldable pub str_eq : List ℕ → List ℕ → Bool
str_eq [] [] = true
str_eq [] (b ∷ t) = false
str_eq (a ∷ s) [] = false
str_eq (a ∷ s) (b ∷ t) = a == b && str_eq s t

-- mpscq_enqueue of a message to the queue of the client `name`, which may be the client of the session.
-- Names are the keys of the table, so that is the one that has the name.
unfoldable pub relay : Server → Session → List ℕ → Outgoing → Session
unfolding str_eq
relay server s name msg = record s {
  relayed = s.relayed ++ (name, msg) ∷ [];
  pending_userdata_queue =
      if str_eq name server.username
      then s.pending_userdata_queue ++ msg ∷ []
      else s.pending_userdata_queue;
}

-- The response that carries the user list.
unfoldable pub user_list_message : List ℕ → Outgoing
user_list_message reqbuf =
    let pdu =
      lwmp_prepare_response (xmalloc (lwmp_hdr_size + length reqbuf)) mt_req
        (some (be32 (resp_codes hv_ok))) 4 none in
    msg_node_create (write_crc32 (write (write pdu 81 reqbuf) 69 (be64 (length reqbuf)))) []

-- handle_request, with the bytes of `reqbuf`: none for a request that is not known.
unfoldable pub handle_request : Server → List ℕ → List ℕ
handle_request server pdu = if req_type pdu == req_user_list then server.user_list else []

unfoldable pub request_response : Server → List ℕ → Outgoing
unfolding handle_request
request_response server pdu =
    let reqbuf = handle_request server pdu in
    if length reqbuf == 0
    then text_message (resp_codes hv_inval_req) (text_bytes "Failed to process request.")
    else user_list_message reqbuf

-- The PDU that the recipient gets: it names the sender, and its checksum is made anew.
unfoldable pub relayed_pdu : Server → List ℕ → Outgoing
relayed_pdu server pdu =
    msg_node_create (write_crc32 (write pdu 5 (strncpy server.username uname_size))) server.username

unfoldable pub relayed_chunk : Server → List ℕ → Outgoing
relayed_chunk server bytes =
    msg_node_create
      (lwmp_prepare_chunk (xmalloc (lwmp_chunk_hdr_size + length bytes)) (length bytes)
        server.username bytes)
      server.username

unfoldable pub unreachable_message : List ℕ → Outgoing
unreachable_message name =
    text_message (resp_codes hv_inval_subj)
      (take 255 (text_bytes "Unable to reach recipient " ++ name ++ text_bytes "."))
