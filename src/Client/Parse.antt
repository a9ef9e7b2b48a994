-- ===== src/Client/Parse.antt =====
-- client/clrecv.c: the loops that fill the client's buffer and take the messages out of it.
use lwmsg.Base.{
  ℕ, zero, suc, ◌+◌, ◌-◌, ◌%◌, ◌^◌, Bool, true, false, ◌&&◌, not, Option, none, some, List, [],
  ◌++◌, ltb, leb, ◌==◌, if◌then◌else◌, length, drop, set, ◌>>=◌,
}
use lwmsg.Netwrap.{recv_error, recv_block, got}
use lwmsg.Lwmp.{
  lwmp_hdr_size, lwmp_pdu_buf_size, lwmp_chunk_hdr_size, pdu_sync_hdr_mark, chunk_sync_hdr_mark,
  mt_file, hdr_mark, msg_type, total_msg_size, pdu_crc32, hdr_crc32, chunk_size, chunk_subject,
  chunk_payload, lwmp_stream_resync,
}
use lwmsg.Session.Inbound.{c_string}
use lwmsg.Client.{
  ClientCtx, FileTransfer, Outside, disconnected, received_file, emit, recv_buf_size, readable,
  timed_out, poll_failed, Readable, poll_ready, poll_nothing, poll_error, poll_eintr,
}
use lwmsg.Client.Receive.{
  process_received_pdu, find_transfer, fclose_fp, fwrite_fp, end_transfer, close_all_transfers,
}

-- The file data of a chunk, for the transfer `ft` in the slot `i`.
unfoldable pub append_chunk : ClientCtx → ℕ → FileTransfer → List ℕ → ClientCtx
append_chunk ctx i ft payload =
    let ft' = record ft { received = (ft.received + length payload) % 2 ^ 64 } in
    let written = fwrite_fp ctx ft.fp payload in
    if leb ft.expected_size ft'.received
    then emit (end_transfer (fclose_fp written ft.fp) i ft')
        (received_file ft.sender ft.filename ft.expected_size)
    else record written { transfers = set written.transfers i ft' }

-- The transfer that find_transfer gives, if any.
unfoldable pub chunk_found : ClientCtx → List ℕ → Option (ℕ × FileTransfer) → ClientCtx
unfolding append_chunk
chunk_found ctx payload none = ctx
chunk_found ctx payload (some (i, ft)) = append_chunk ctx i ft payload

unfoldable pub process_chunk : ClientCtx → List ℕ → List ℕ → ClientCtx
unfolding find_transfer chunk_found
process_chunk ctx sender payload = chunk_found ctx payload (find_transfer ctx sender)

-- The memmove of what follows the first `n` bytes.
abbrev pub consume : ClientCtx → ℕ → ClientCtx
consume ctx n = record ctx { recv_buf = drop n ctx.recv_buf }

abbrev pub resync : ClientCtx → List ℕ → Option ClientCtx
resync ctx buf = lwmp_stream_resync buf >>= (λ left. some (record ctx { recv_buf = left }))

-- The bytes of a PDU that follow its header on the wire.
unfoldable pub wire_payload : List ℕ → ℕ
wire_payload buf =
    let size = total_msg_size buf in
    if msg_type buf == mt_file && ltb lwmp_pdu_buf_size size then lwmp_pdu_buf_size else size

-- A round of the loop of clrecv_parse. The loop goes on where the answer is true; `none` is a spent
-- fuel of lwmp_stream_resync.
unfoldable pub parse_pdu : Outside → ClientCtx → Option (Bool × ClientCtx)
unfolding wire_payload
parse_pdu env ctx =
    let buf = ctx.recv_buf in
    let total_needed = (lwmp_hdr_size + wire_payload buf) % 2 ^ 64 in
    if ltb (length buf) lwmp_hdr_size
    then some (false, ctx)
    else if not (hdr_crc32 buf == pdu_crc32 buf)
    then resync ctx (set buf 0 0) >>= (λ ctx'. some (true, ctx'))
    else if ltb (length buf) total_needed
    then some (false, ctx)
    else some (true, consume (process_received_pdu env ctx (wire_payload buf)) total_needed)

unfoldable pub parse_chunk : ClientCtx → Bool × ClientCtx
unfolding process_chunk c_string
parse_chunk ctx =
    let buf = ctx.recv_buf in
    let size = chunk_size buf in
    let total_needed = lwmp_chunk_hdr_size + size in
    if ltb (length buf) lwmp_chunk_hdr_size
    then (false, ctx)
    else if ltb (length buf) total_needed
    then (false, ctx)
    else (
      true,
      consume
          (if ltb 0 size
            then process_chunk ctx (c_string (chunk_subject buf)) (chunk_payload buf size)
            else ctx)
          total_needed,
    )

unfoldable pub parse_step : Outside → ClientCtx → Option (Bool × ClientCtx)
unfolding parse_pdu parse_chunk
parse_step env ctx =
    let buf = ctx.recv_buf in
    if ltb (length buf) 4
    then some (false, ctx)
    else if hdr_mark buf == pdu_sync_hdr_mark
    then parse_pdu env ctx
    else if hdr_mark buf == chunk_sync_hdr_mark
    then some (parse_chunk ctx)
    else resync ctx buf >>= (λ ctx'. some (ltb 0 (length ctx'.recv_buf), ctx'))

unfoldable pub parse_loop : ℕ → Outside → ClientCtx → Option ClientCtx
unfolding parse_step
parse_loop zero env ctx = none
parse_loop (suc fuel) env ctx =
    parse_step env ctx
    >>= (λ (more, ctx'). elim more [ true ↦ parse_loop fuel env ctx' | false ↦ some ctx' ])

unfoldable pub clrecv_parse : Outside → ClientCtx → Option ClientCtx
unfolding parse_loop
clrecv_parse env ctx = parse_loop (length ctx.recv_buf + 1) env ctx

-- The end of the connection, found by clrecv_fill.
unfoldable pub lose_connection : ClientCtx → ClientCtx
unfolding close_all_transfers
lose_connection ctx =
    emit
      (close_all_transfers (record ctx {
        connected = false;
        recv_buf = [];
        awaiting_resp = false;
        sending_chunks = false;
        username = [];
        server_host = [];
      }))
      disconnected

-- The loop of clrecv_fill; the answer is false for -1.
unfoldable pub fill_loop : ℕ → Outside → ClientCtx → Option (Bool × ClientCtx)
unfolding lose_connection
fill_loop zero env ctx = none
fill_loop (suc fuel) env ctx =
    let called = record ctx { recv_calls = ctx.recv_calls + 1 } in
    let round : Option (Bool × ClientCtx) =
      elim (env.recv_fn ctx.recv_calls (recv_buf_size - length ctx.recv_buf)) [
        | recv_block ↦ some (true, called)
        | recv_error ↦ some (false, lose_connection called)
        | got bytes ↦ fill_loop fuel env (record called { recv_buf = ctx.recv_buf ++ bytes })
      ] in
    if ltb (length ctx.recv_buf) recv_buf_size then round else some (true, ctx)

-- A round of the loop takes a byte at least.
unfoldable pub clrecv_fill : Outside → ClientCtx → Option (Bool × ClientCtx)
unfolding fill_loop
clrecv_fill env ctx = fill_loop (recv_buf_size + 1) env ctx

-- `if (clrecv_fill(ctx) < 0) …; clrecv_parse(ctx)`.
abbrev pub fill_and_parse : Outside → ClientCtx → Option (Bool × ClientCtx)
fill_and_parse env ctx = clrecv_fill env ctx >>= (λ (alive, ctx').
    if alive then clrecv_parse env ctx' >>= (λ parsed. some (true, parsed)) else some (false, ctx'))

unfoldable pub handle_socket_data : Outside → ClientCtx → Option ClientCtx
unfolding clrecv_fill clrecv_parse
handle_socket_data env ctx = fill_and_parse env ctx >>= (λ (alive, ctx'). some ctx')

abbrev pub waits : ClientCtx → ClientCtx
waits ctx = record ctx { wait_calls = ctx.wait_calls + 1 }

-- The loop over poll from the given round on; `none` is a spent fuel.
unfoldable pub poll_loop : ℕ → Outside → ℕ → ℕ → Option Readable
poll_loop zero env call round = none
poll_loop (suc fuel) env call round = elim (env.poll call round) [
  | poll_ready ↦ some readable
  | poll_nothing ↦ some timed_out
  | poll_error ↦ some poll_failed
  | poll_eintr ↦ poll_loop fuel env call (round + 1)
]

unfoldable pub wait_readable : ℕ → Outside → ClientCtx → Option Readable
unfolding poll_loop
wait_readable fuel env ctx =
    let polled = poll_loop fuel env ctx.wait_calls 0 in
    if env.avail_data_fn ctx.wait_calls then some readable else polled

-- The answers 0, with the code, -1 and -2 of await_resp.
pub data Awaited : Type 0 where
  answered : ℕ → Awaited
  no_answer connection_lost : Awaited

-- The loop of await_resp, and what follows it.
unfoldable pub await_loop : ℕ → Outside → ClientCtx → Option (Awaited × ClientCtx)
unfolding wait_readable clrecv_fill clrecv_parse
await_loop zero env ctx = none
await_loop (suc fuel) env ctx =
    let round : Option (Awaited × ClientCtx) = wait_readable fuel env ctx >>= (λ r. elim r [
      | timed_out ↦ some (no_answer, record (waits ctx) { awaiting_resp = false })
      | poll_failed ↦ some (connection_lost, waits ctx)
      | readable ↦ fill_and_parse env (waits ctx) >>= (λ (alive, ctx'). elim alive [
        | true ↦ await_loop fuel env ctx'
        | false ↦ some (connection_lost, ctx')
      ])
    ]) in
    if ctx.awaiting_resp && ctx.connected
    then round
    else some (if ctx.connected then answered ctx.last_resp_code else connection_lost, ctx)

unfoldable pub await_resp : ℕ → Outside → ClientCtx → Option (Awaited × ClientCtx)
unfolding await_loop clrecv_parse
await_resp fuel env ctx =
    clrecv_parse env (record ctx { awaiting_resp = true }) >>= await_loop fuel env

unfoldable pub pump_socket_once : ℕ → Outside → ClientCtx → Option ClientCtx
unfolding wait_readable handle_socket_data
pump_socket_once fuel env ctx = wait_readable fuel env ctx >>= (λ r. elim r [
  | readable ↦ handle_socket_data env (waits ctx)
  | timed_out ↦ some (waits ctx)
  | poll_failed ↦ some (waits ctx)
])
