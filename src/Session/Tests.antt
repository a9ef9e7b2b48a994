-- ===== src/Session/Tests.antt =====
-- A session with small messages, over a network that takes one byte at a time and gives what is
-- asked for.
use lwmsg.Base.{
  ℕ, zero, suc, ◌≡◌, inl, refl, true, false, none, some, List, [], ◌∷◌, ◌++◌, replicate, arith,
  Returns,
}
use lwmsg.Base.Memory.{slice, be_decode}
use lwmsg.Netwrap.{Recv, recv_error, got, Sent, send_error, sent}
use lwmsg.Lwmp.{total_msg_size}
use lwmsg.Session.{Outgoing, Session, NetFns, unsent}
use lwmsg.Session.Outbound.{wt_serve_response, wt_handle_outbound_data, wt_handle_queued_messages}
use lwmsg.Session.Inbound.{Server, cleared}
use lwmsg.Session.Handler.{inbound_loop}
use lwmsg.Session.Sending.{stream, ObeysSend}
use lwmsg.Session.Response.{IsAwake, KeepsRest, serve_response-stream}
use lwmsg.Session.Pending.{notice_of}
use lwmsg.Session.Delivery.{Resumed, handle_outbound-Resumed}
use lwmsg.Session.Queued.{QueueRead, handle_queued-QueueRead}
use lwmsg.Session.Stuck.{
  GetsHugeHeader, inbound_loop-GetsHugeHeader, Overshoots, inbound_loop-Overshoots,
}

zeros : ℕ → ℕ → Recv
zeros k zero = recv_error
zeros k (suc n) = got (replicate (suc n) 0)

one_byte : ℕ → List ℕ → Sent
one_byte k [] = send_error
one_byte k (b ∷ bytes) = sent 1

abbrev net : NetFns
net = record { recv_fn = zeros; send_fn = one_byte }

net-ObeysSend : ObeysSend net
unfolding one_byte
net-ObeysSend k [] = tt
net-ObeysSend k (b ∷ bytes) = omega arith

abbrev hello : Outgoing
hello = record { buf = b'h' ∷ b'i' ∷ []; buf_offset = 0; subject_name = b'b' ∷ [] }

abbrev quiet : Session
quiet = record {
  storage = cleared;
  temp_send_storage = none;
  pending_ctrl_queue = [];
  pending_userdata_queue = hello ∷ [];
  relayed = [];
  wire = [];
  recv_calls = 0;
  send_calls = 0;
  disconnected = false;
  want_out = false;
  queue_in = true;
}

quiet-IsAwake : IsAwake quiet
quiet-IsAwake = record { idle = λ e. refl; waiting = λ msg e. absurd (ground (arith, e)) }

-- One of whose messages is sent in part.
abbrev blocked_session : Session
blocked_session = record quiet {
  temp_send_storage = some (record hello { buf_offset = 1 });
  pending_ctrl_queue = hello ∷ [];
  want_out = true;
}

blocked-IsAwake : IsAwake blocked_session
blocked-IsAwake = record { idle = λ e. absurd (ground (arith, e)); waiting = λ msg e. inl refl }

abbrev server : Server
server = record {
  hvfns = record {
    subj_valid_fn = λ c name. true;
    req_valid_fn = λ pdu. true;
    allow_file_transfers = true;
    max_filesize_b = 1000;
  };
  reach = λ name. true;
  user_list = b'b' ∷ 0 ∷ [];
  username = b'a' ∷ [];
}

serve_response-stream_example :
    Returns
      (λ s'.
        (stream s' ≡ stream blocked_session ++ unsent hello)
        × IsAwake s'
        × KeepsRest blocked_session s')
      (wt_serve_response net blocked_session hello)
serve_response-stream_example =
    serve_response-stream net blocked_session hello net-ObeysSend blocked-IsAwake

handle_outbound-Resumed_example :
    Returns
      (Resumed
        (stream blocked_session ++ notice_of (λ name. false) blocked_session.temp_send_storage)
        blocked_session)
      (wt_handle_outbound_data net (λ name. false) blocked_session)
handle_outbound-Resumed_example =
    handle_outbound-Resumed net (λ name. false) blocked_session net-ObeysSend blocked-IsAwake refl
      refl

handle_queued-QueueRead_example :
    Returns (QueueRead (λ name. true) quiet) (wt_handle_queued_messages net (λ name. true) quiet)
handle_queued-QueueRead_example =
    handle_queued-QueueRead net (λ name. true) quiet net-ObeysSend quiet-IsAwake refl

-- The rest of a header that begins with a zero: zeros, but for the size of the message.
gives_huge : ℕ → ℕ → Recv
gives_huge k n = got (replicate 68 0 ++ (replicate 8 255 ++ replicate 4 0))

abbrev huge_net : NetFns
huge_net = record { recv_fn = gives_huge; send_fn = one_byte }

abbrev begun : Session
begun = record quiet { storage = record cleared { recvbuf = 0 ∷ [] } }

begun-GetsHugeHeader :
    GetsHugeHeader huge_net begun (replicate 68 0 ++ (replicate 8 255 ++ replicate 4 0))
unfolding gives_huge total_msg_size be_decode slice
begun-GetsHugeHeader = record {
  connected = refl;
  synced = refl;
  first = refl;
  unread = (refl, refl);
  some_missing = omega arith;
  comes = refl;
  has_header = refl;
  huge = omega arith;
  word = omega arith;
}

inbound_loop-GetsHugeHeader_example : inbound_loop 1000 huge_net server begun ≡ none
inbound_loop-GetsHugeHeader_example =
    inbound_loop-GetsHugeHeader 1000 huge_net server begun
      (replicate 68 0 ++ (replicate 8 255 ++ replicate 4 0)) begun-GetsHugeHeader

abbrev beyond : Session
beyond = record quiet {
  storage = record cleared {
    total_msg_data_recved = 9;
    expected_msg_size = 4;
    not_msg_init_pdu = true;
    dest_uname = b'b' ∷ 0 ∷ [];
  };
}

beyond-Overshoots : Overshoots server beyond
beyond-Overshoots = record {
  connected = refl;
  synced = refl;
  later = refl;
  over = omega arith;
  reachable = refl;
}

inbound_loop-Overshoots_example : inbound_loop 1000 net server beyond ≡ none
inbound_loop-Overshoots_example = inbound_loop-Overshoots 1000 net server beyond beyond-Overshoots
