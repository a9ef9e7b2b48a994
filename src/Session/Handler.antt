-- ===== src/Session/Handler.antt =====
-- wt_handle_inbound_data of server/worker.c, in the parts that its text has.
use lwmsg.Base.{
  ℕ, zero, suc, true, false, ◌||◌, Option, none, some, [], leb, ◌==◌, if◌then◌else◌, length, ◌>>=◌,
}
use lwmsg.Lwmp.{
  lwmp_max_pdu_size, mt_req, HdrValidationStatus, hv_ok, hv_crcerr, lwmp_validate_hdrs, resp_codes,
  lwmp_stream_resync,
}
use lwmsg.Session.{Session, NetFns, disconnect}
use lwmsg.Session.Message.{info_message}
use lwmsg.Session.Outbound.{wt_serve_response}
use lwmsg.Session.Inbound.{
  WtStatus, wt_dconn, wt_stop_eblk, wt_stop_border, Server, c_string, cleared, store, store_counted,
  Fill, filled, recv_failed, blocks, recv_loop, recv_desynced, hdr_missing, hdr_ask, pdu_missing,
  pdu_ask, chunk_missing, chunk_ask, recv_fuel, read_header, set_storage, relay, request_response,
  relayed_pdu, relayed_chunk, unreachable_message,
}

abbrev pub Result : Type 0
Result = Option (WtStatus × Session)

-- `return status`.
abbrev pub stop : WtStatus → Session → Result
stop status s = some (status, s)

-- What follows a loop over recv_fn: an error releases the client.
abbrev pub after_fill : Option (Fill × Session) → (Session → Result) → Result
after_fill r next = r >>= (λ (fill, s). elim fill [
  | recv_failed ↦ stop wt_dconn (disconnect s)
  | blocks ↦ stop wt_stop_eblk s
  | filled ↦ next s
])

-- lwmp_stream_resync, and what follows if it leaves something.
unfoldable pub resynced : Session → (Session → Result) → Result
resynced s next = lwmp_stream_resync s.storage.recvbuf >>= (λ left.
    let m = record (s.storage) { recvbuf = left } in
    if length left == 0
    then stop wt_stop_eblk (set_storage s m)
    else next (set_storage s (record m { is_desynced = false })))

-- The part for a stream out of step, which EBLOCK does not end.
unfoldable pub resync_part : NetFns → Session → (Session → Result) → Result
unfolding resynced
resync_part nfn s next = recv_desynced recv_fuel nfn s >>= (λ (fill, s1). elim fill [
  | recv_failed ↦ stop wt_dconn (disconnect s1)
  | blocks ↦ resynced s1 next
  | filled ↦ resynced s1 next
])

-- After the first PDU is served: the message is over, or chunks follow.
unfoldable pub pdu_served : Session → Result
pdu_served s =
    let m = s.storage in
    stop wt_stop_border (
      set_storage s (
        if m.total_msg_data_recved == m.expected_msg_size
        then cleared
        else record m { not_msg_init_pdu = true }))

-- A header that is not HV_OK ends the message.
unfoldable pub refused : HdrValidationStatus → Session → Result
refused status s = stop wt_stop_border (
    set_storage s (elim status [ hv_crcerr ↦ record cleared { is_desynced = true } | _ ↦ cleared ]))

unfoldable pub relay_pdu : NetFns → Server → Session → Result
relay_pdu nfn server s =
    let m = s.storage in
    let name = c_string m.dest_uname in
    if server.reach name
    then pdu_served (
        set_storage (relay server s name (relayed_pdu server m.recvbuf))
          (record m { recvbuf = [] }))
    else wt_serve_response nfn s (unreachable_message name)
      >>= (λ s1. stop wt_stop_eblk (set_storage s1 cleared))

-- A header that is HV_OK.
unfoldable pub accept_pdu : NetFns → Server → Session → Result
unfolding relay_pdu pdu_served
accept_pdu nfn server s =
    if s.storage.msg_type == mt_req
    then wt_serve_response nfn s (request_response server s.storage.recvbuf) >>= pdu_served
    else relay_pdu nfn server s

unfoldable pub serve_pdu : NetFns → Server → Session → Result
unfolding refused accept_pdu
serve_pdu nfn server s =
    let m = s.storage in
    let hdr_val_res = lwmp_validate_hdrs m.recvbuf tt (c_string m.dest_uname) server.hvfns in
    wt_serve_response nfn s (info_message (resp_codes hdr_val_res))
    >>= (λ s1. elim hdr_val_res [ hv_ok ↦ accept_pdu nfn server s1 | other ↦ refused other s1 ])

-- The first PDU of a message.
unfoldable pub first_pdu : NetFns → Server → Session → Result
unfolding read_header serve_pdu
first_pdu nfn server s = after_fill (recv_loop recv_fuel nfn hdr_missing hdr_ask store s) (λ s1.
    after_fill
      (recv_loop recv_fuel nfn pdu_missing pdu_ask store_counted
        (set_storage s1 (read_header s1.storage)))
      (λ s2.
        let m = s2.storage in
        if leb m.expected_msg_size m.total_msg_data_recved || length m.recvbuf == lwmp_max_pdu_size
        then serve_pdu nfn server s2
        else stop wt_stop_border s2))

unfoldable pub relay_chunk : NetFns → Server → Session → Result
relay_chunk nfn server s =
    let m = s.storage in
    let name = c_string m.dest_uname in
    if server.reach name
    then stop wt_stop_border (
        set_storage (relay server s name (relayed_chunk server m.recvbuf)) (
          if m.expected_msg_size == m.total_msg_data_recved
          then cleared
          else record m { recvbuf = [] }))
    else wt_serve_response nfn s (unreachable_message name)
      >>= (λ s1. stop wt_stop_eblk (set_storage s1 (record cleared { is_desynced = true })))

unfoldable pub next_chunk : NetFns → Server → Session → Result
unfolding relay_chunk
next_chunk nfn server s =
    after_fill (recv_loop recv_fuel nfn chunk_missing chunk_ask store_counted s)
      (relay_chunk nfn server)

-- The parts for a stream that is in step.
unfoldable pub in_step : NetFns → Server → Session → Result
unfolding first_pdu next_chunk
in_step nfn server s =
    if s.storage.not_msg_init_pdu then next_chunk nfn server s else first_pdu nfn server s

unfoldable pub wt_handle_inbound_data : NetFns → Server → Session → Result
unfolding resync_part in_step
wt_handle_inbound_data nfn server s =
    if s.disconnected
    then stop wt_dconn s
    else if s.storage.is_desynced
    then resync_part nfn s (in_step nfn server)
    else in_step nfn server s

-- `while (… == WT_STOP_BORDER);` of wt_handle_clientevent.
unfoldable pub inbound_loop : ℕ → NetFns → Server → Session → Result
unfolding wt_handle_inbound_data
inbound_loop zero nfn server s = none
inbound_loop (suc fuel) nfn server s = wt_handle_inbound_data nfn server s >>= (λ (status, s1).
    elim status [
      | wt_dconn ↦ stop wt_dconn s1
      | wt_stop_eblk ↦ stop wt_stop_eblk s1
      | wt_stop_border ↦ inbound_loop fuel nfn server s1
    ])
