-- ===== src/Session/Stuck.antt =====
-- Messages for which the loop over wt_handle_inbound_data of server/worker.c does not end.
use lwmsg.Base.{
  ℕ, zero, suc, ◌+◌, ◌^◌, ◌≤◌, ◌<◌, ◌≡◌, refl, sym, ap, subst, ◌∙◌, arith, Bool, true, false, none,
  some, List, [], ◌++◌, leb, ◌==◌, ◌||◌, if◌then◌else◌, length,
}
use lwmsg.Lwmp.{lwmp_hdr_size, lwmp_max_pdu_size, total_msg_size}
use lwmsg.Session.{CurrRecvMsg, Session, NetFns}
use lwmsg.Netwrap.{recv_error, recv_block, got}
use lwmsg.Session.Inbound.{
  called_recv, recv_failed, blocks, wt_stop_border, Server, filled, recv_loop, recv_fuel,
  hdr_missing, hdr_ask, pdu_missing, pdu_ask, chunk_missing, chunk_ask, store, store_counted,
  read_header, set_storage, relay, relayed_chunk, c_string, cleared,
}
use lwmsg.Session.Calls.{choose}
use lwmsg.Session.Handler.{
  Result, stop, after_fill, serve_pdu, first_pdu, relay_chunk, wt_handle_inbound_data, inbound_loop,
}

-- A loop whose test fails at once leaves all as it is.
recv_loop-over :
    (fuel : ℕ) (nfn : NetFns) (more : CurrRecvMsg → Bool) (ask : CurrRecvMsg → ℕ)
    (add : CurrRecvMsg → List ℕ → CurrRecvMsg) (s : Session)
    → more s.storage ≡ false
    → recv_loop (suc fuel) nfn more ask add s ≡ some (filled, s)
unfolding recv_loop
recv_loop-over fuel nfn more ask add s over = rw (over, recv_loop) refl

-- The header of a message has been read whose size is within 81 of 2 ^ 64, and none of its bytes.
pub record Starves (s : Session) : Type 0 where
  pub connected : s.disconnected ≡ false
  pub synced : s.storage.is_desynced ≡ false
  pub first : s.storage.not_msg_init_pdu ≡ false
  pub has_header : length s.storage.recvbuf ≡ lwmp_hdr_size
  pub huge : 2 ^ 64 ≤ s.storage.expected_msg_size + lwmp_hdr_size
  pub word : s.storage.expected_msg_size < 2 ^ 64
  pub nothing : s.storage.total_msg_data_recved ≡ 0

read_header-Starves : (s : Session) → Starves s → read_header s.storage ≡ s.storage
unfolding read_header
read_header-Starves s st = ground (arith, st.huge)

-- The parts of first_pdu behind its loops.
abbrev after_pdu : NetFns → Server → Session → Result
after_pdu nfn server s =
    if leb s.storage.expected_msg_size s.storage.total_msg_data_recved
      || length s.storage.recvbuf == lwmp_max_pdu_size
    then serve_pdu nfn server s
    else stop wt_stop_border s

abbrev after_header : NetFns → Server → Session → Result
after_header nfn server s =
    after_fill
      (recv_loop recv_fuel nfn pdu_missing pdu_ask store_counted
        (set_storage s (read_header s.storage)))
      (after_pdu nfn server)

-- The session after its header is read.
abbrev read : Session → Session
read s = set_storage s (read_header s.storage)

-- What follows the header, once it is there.
after_header-read :
    (nfn : NetFns) (server : Server) (s : Session)
    → Starves (read s)
    → after_header nfn server s ≡ some (wt_stop_border, read s)
after_header-read nfn server s st =
    let m = (read s).storage in
    let pdu : pdu_missing m ≡ false = ground (arith, st.has_header, st.huge, st.word) in
    let part : (leb m.expected_msg_size m.total_msg_data_recved
          || length m.recvbuf == lwmp_max_pdu_size)
        ≡ false =
      ground (arith, st.has_header, st.huge, st.nothing) in
    ap (λ r. after_fill r (after_pdu nfn server))
      (recv_loop-over lwmp_max_pdu_size nfn pdu_missing pdu_ask store_counted (read s) pdu)
    ∙ choose _ false part (serve_pdu nfn server (read s)) (stop wt_stop_border (read s))

first_pdu-read :
    (nfn : NetFns) (server : Server) (s : Session)
    → length s.storage.recvbuf ≡ lwmp_hdr_size
    → Starves (read s)
    → first_pdu nfn server s ≡ some (wt_stop_border, read s)
unfolding first_pdu
first_pdu-read nfn server s has_header st =
    let hdr : hdr_missing s.storage ≡ false = ground (arith, has_header) in
    ap (λ r. after_fill r (after_header nfn server))
      (recv_loop-over lwmp_max_pdu_size nfn hdr_missing hdr_ask store s hdr)
    ∙ after_header-read nfn server s st

-- Such a message makes wt_handle_inbound_data return WT_STOP_BORDER with nothing done but the header
-- read.
inbound-read :
    (nfn : NetFns) (server : Server) (s : Session)
    → length s.storage.recvbuf ≡ lwmp_hdr_size
    → s.storage.is_desynced ≡ false
    → s.storage.not_msg_init_pdu ≡ false
    → Starves (read s)
    → wt_handle_inbound_data nfn server s ≡ some (wt_stop_border, read s)
unfolding wt_handle_inbound_data
inbound-read nfn server s has_header synced first st =
    choose s.disconnected false st.connected _ _
    ∙ choose s.storage.is_desynced false synced _ _
    ∙ choose s.storage.not_msg_init_pdu false first _ _
    ∙ first_pdu-read nfn server s has_header st

inbound_loop-Starves :
    (fuel : ℕ) (nfn : NetFns) (server : Server) (s : Session)
    → Starves s
    → inbound_loop fuel nfn server s ≡ none
unfolding inbound_loop
inbound_loop-Starves zero nfn server s st = refl
inbound_loop-Starves (suc fuel) nfn server s st =
    let same : read s ≡ s = ap (set_storage s) (read_header-Starves s st) in
    let call : wt_handle_inbound_data nfn server s ≡ some (wt_stop_border, s) =
      inbound-read nfn server s st.has_header st.synced st.first (subst Starves (sym same) st)
      ∙ ap (λ t. some (wt_stop_border, t)) same in
    rw call (inbound_loop-Starves fuel nfn server s st)

-- The session in step holds a part of a header, or nothing, and the rest of it comes with the next call
-- of recv_fn: a header whose size of the message is one of the last 81 that the field has.
pub record GetsHugeHeader (nfn : NetFns) (s : Session) (bytes : List ℕ) : Type 0 where
  pub connected : s.disconnected ≡ false
  pub synced : s.storage.is_desynced ≡ false
  pub first : s.storage.not_msg_init_pdu ≡ false
  pub unread : (s.storage.msg_type ≡ 0) × (s.storage.expected_msg_size ≡ 0)
  pub some_missing : length s.storage.recvbuf < lwmp_hdr_size
  pub comes : nfn.recv_fn s.recv_calls (hdr_ask s.storage) ≡ got bytes
  pub has_header : length (s.storage.recvbuf ++ bytes) ≡ lwmp_hdr_size
  pub huge : 2 ^ 64 ≤ total_msg_size (s.storage.recvbuf ++ bytes) + lwmp_hdr_size
  pub word : total_msg_size (s.storage.recvbuf ++ bytes) < 2 ^ 64

-- The session with the whole header.
abbrev with_header : Session → List ℕ → Session
with_header s bytes = record (called_recv s) { storage = store s.storage bytes }

read-Starves :
    (nfn : NetFns) (s : Session) (bytes : List ℕ)
    → GetsHugeHeader nfn s bytes
    → Starves (read (with_header s bytes))
unfolding read_header
read-Starves nfn s bytes h = record {
  connected = h.connected;
  synced = ground (arith, h.synced);
  first = ground (arith, h.first);
  has_header = ground (arith, h.has_header);
  huge = ground (arith, h.unread, h.huge);
  word = ground (arith, h.unread, h.word);
  nothing = ground (arith, h.unread, h.has_header);
}

enters : {A : Type 0} (b : Bool) (x y : A) → b ≡ true → (if b then x else y) ≡ x
enters true x y e = refl
enters false x y e = absurd (ground (arith, e))

-- The loop that receives the header takes the rest of it.
recv_loop-GetsHugeHeader :
    (fuel : ℕ) (nfn : NetFns) (s : Session) (bytes : List ℕ)
    → GetsHugeHeader nfn s bytes
    → recv_loop (suc (suc fuel)) nfn hdr_missing hdr_ask store s
      ≡ some (filled, with_header s bytes)
unfolding recv_loop
recv_loop-GetsHugeHeader fuel nfn s bytes h =
    enters (hdr_missing s.storage) _ _ (ground (arith, h.some_missing))
    ∙ ap
        (λ r. elim r [
          | recv_error ↦ some (recv_failed, called_recv s)
          | recv_block ↦ some (blocks, called_recv s)
          | got bs ↦
              recv_loop (suc fuel) nfn hdr_missing hdr_ask store
                (record (called_recv s) { storage = store s.storage bs })
        ])
        h.comes
    ∙ recv_loop-over fuel nfn hdr_missing hdr_ask store (with_header s bytes)
        (ground (arith, h.has_header))

-- The loop over wt_handle_inbound_data does not end for a connected client, in step and between two
-- messages, that sends a header of a message size of at least 2 ^ 64 - 81, of which a part may be
-- there already: with no fuel does it return, whatever the network and the server answer.
pub inbound_loop-GetsHugeHeader :
    (fuel : ℕ) (nfn : NetFns) (server : Server) (s : Session) (bytes : List ℕ)
    → GetsHugeHeader nfn s bytes
    → inbound_loop fuel nfn server s ≡ none
unfolding inbound_loop wt_handle_inbound_data first_pdu
inbound_loop-GetsHugeHeader zero nfn server s bytes h = refl
inbound_loop-GetsHugeHeader (suc fuel) nfn server s bytes h =
    let st = read-Starves nfn s bytes h in
    let call : wt_handle_inbound_data nfn server s
        ≡ some (wt_stop_border, read (with_header s bytes)) =
      choose s.disconnected false h.connected _ _
      ∙ choose s.storage.is_desynced false h.synced _ _
      ∙ choose s.storage.not_msg_init_pdu false h.first _ _
      ∙ ap (λ r. after_fill r (after_header nfn server))
          (recv_loop-GetsHugeHeader 4095 nfn s bytes h)
      ∙ after_header-read nfn server (with_header s bytes) st in
    rw call (inbound_loop-Starves fuel nfn server (read (with_header s bytes)) st)

-- A session that has received more than its message has, and is to go on with chunks of it.
pub record Overshoots (server : Server) (s : Session) : Type 0 where
  pub connected : s.disconnected ≡ false
  pub synced : s.storage.is_desynced ≡ false
  pub later : s.storage.not_msg_init_pdu ≡ true
  pub over : s.storage.expected_msg_size < s.storage.total_msg_data_recved
  pub reachable : server.reach (c_string s.storage.dest_uname) ≡ true

-- A call then relays what the buffer holds, and empties it.
abbrev chunked : Server → Session → Session
chunked server s =
    let m = s.storage in
    set_storage (relay server s (c_string m.dest_uname) (relayed_chunk server m.recvbuf))
      (record m { recvbuf = [] })

relay_chunk-Overshoots :
    (nfn : NetFns) (server : Server) (s : Session)
    → Overshoots server s
    → relay_chunk nfn server s ≡ some (wt_stop_border, chunked server s)
unfolding relay_chunk
relay_chunk-Overshoots nfn server s o =
    let m = s.storage in
    let more : (m.expected_msg_size == m.total_msg_data_recved) ≡ false = ground (arith, o.over) in
    let sent = relay server s (c_string m.dest_uname) (relayed_chunk server m.recvbuf) in
    choose (server.reach (c_string m.dest_uname)) true o.reachable _ _
    ∙ ap
        (λ (b : Bool).
          stop wt_stop_border (set_storage sent (if b then cleared else record m { recvbuf = [] })))
        more

inbound-Overshoots :
    (nfn : NetFns) (server : Server) (s : Session)
    → Overshoots server s
    → wt_handle_inbound_data nfn server s ≡ some (wt_stop_border, chunked server s)
unfolding wt_handle_inbound_data
inbound-Overshoots nfn server s o =
    let over : chunk_missing s.storage ≡ false = ground (arith, o.over) in
    choose s.disconnected false o.connected _ _
    ∙ choose s.storage.is_desynced false o.synced _ _
    ∙ choose s.storage.not_msg_init_pdu true o.later _ _
    ∙ ap (λ r. after_fill r (relay_chunk nfn server))
        (recv_loop-over lwmp_max_pdu_size nfn chunk_missing chunk_ask store_counted s over)
    ∙ relay_chunk-Overshoots nfn server s o

-- The loop over wt_handle_inbound_data does not end either for a session that has received more than its
-- message has: it relays chunks without end while the recipient can be reached.
pub inbound_loop-Overshoots :
    (fuel : ℕ) (nfn : NetFns) (server : Server) (s : Session)
    → Overshoots server s
    → inbound_loop fuel nfn server s ≡ none
unfolding inbound_loop relay
inbound_loop-Overshoots zero nfn server s o = refl
inbound_loop-Overshoots (suc fuel) nfn server s o = rw (inbound-Overshoots nfn server s o) (
    inbound_loop-Overshoots fuel nfn server (chunked server s) (record {
      connected = o.connected;
      synced = o.synced;
      later = o.later;
      over = o.over;
      reachable = o.reachable;
    }))
