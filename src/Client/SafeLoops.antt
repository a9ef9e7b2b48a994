-- ===== src/Client/SafeLoops.antt =====
-- The loops of client/clrecv.c make files under safe names only.
use lwmsg.Base.{
  ℕ, zero, suc, ◌+◌, ◌-◌, ◌%◌, ◌^◌, ◌≡◌, subst, Bool, true, false, not, Option, none, some, List,
  [], ◌∷◌, ◌++◌, ltb, ◌==◌, if◌then◌else◌, length, set, ◌>>=◌,
}
use lwmsg.Netwrap.{recv_error, recv_block, got}
use lwmsg.Lwmp.{
  lwmp_hdr_size, lwmp_stream_resync, pdu_sync_hdr_mark, chunk_sync_hdr_mark, hdr_mark, hdr_crc32,
  pdu_crc32, chunk_size, chunk_subject, chunk_payload, lwmp_chunk_hdr_size,
}
use lwmsg.Session.Inbound.{c_string}
use lwmsg.Client.{ClientCtx, FileTransfer, Outside, disconnected, recv_buf_size}
use lwmsg.Client.Receive.{find_transfer, fclose_fp, fclose_all, close_all_transfers}
use lwmsg.Client.Parse.{
  wire_payload, process_chunk, parse_pdu, parse_chunk, parse_step, parse_loop, clrecv_parse,
  lose_connection, fill_loop, clrecv_fill, fill_and_parse, handle_socket_data, resync,
}
use lwmsg.Client.Rest.{if_lem}
use lwmsg.Client.SafeEvents.{
  IsSafe, process-IsSafe, chunk_found-IsSafe, emit-IsSafe, fclose_fp-IsSafe,
}

-- If a part of the loop returns, it leaves only safe names.
abbrev pub Leaves : Option (Bool × ClientCtx) → Type 0
Leaves none = Unit
Leaves (some (more, c)) = IsSafe c

abbrev LeavesCtx : Option ClientCtx → Type 0
LeavesCtx none = Unit
LeavesCtx (some c) = IsSafe c

bind-Leaves :
    (r : Option (Bool × ClientCtx)) (next : Bool × ClientCtx → Option (Bool × ClientCtx))
    → Leaves r
    → ((more : Bool) (c : ClientCtx) → IsSafe c → Leaves (next (more, c)))
    → Leaves (r >>= next)
bind-Leaves none next h k = tt
bind-Leaves (some (more, c)) next h k = k more c h

bind-LeavesCtx :
    (r : Option (Bool × ClientCtx)) (next : Bool × ClientCtx → Option ClientCtx)
    → Leaves r
    → ((more : Bool) (c : ClientCtx) → IsSafe c → LeavesCtx (next (more, c)))
    → LeavesCtx (r >>= next)
bind-LeavesCtx none next h k = tt
bind-LeavesCtx (some (more, c)) next h k = k more c h

ctx-Leaves :
    (r : Option ClientCtx) (f : ClientCtx → Bool)
    → LeavesCtx r
    → Leaves (r >>= (λ c. some (f c, c)))
ctx-Leaves none f h = tt
ctx-Leaves (some c) f h = h

left-LeavesCtx :
    (r : Option (List ℕ)) (ctx : ClientCtx)
    → IsSafe ctx
    → LeavesCtx (r >>= (λ left. some (record ctx { recv_buf = left })))
left-LeavesCtx none ctx h = tt
left-LeavesCtx (some left) ctx h = h

resync-LeavesCtx : (ctx : ClientCtx) (buf : List ℕ) → IsSafe ctx → LeavesCtx (resync ctx buf)
resync-LeavesCtx ctx buf h = left-LeavesCtx (lwmp_stream_resync buf) ctx h

parse_pdu-Leaves : (env : Outside) (ctx : ClientCtx) → IsSafe ctx → Leaves (parse_pdu env ctx)
unfolding parse_pdu
parse_pdu-Leaves env ctx h =
    let buf = ctx.recv_buf in
    if_lem Leaves (ltb (length buf) lwmp_hdr_size) (λ _. h)
      (λ _.
        if_lem Leaves (not (hdr_crc32 buf == pdu_crc32 buf))
          (λ _.
            ctx-Leaves (resync ctx (set buf 0 0)) (λ c. true)
              (resync-LeavesCtx ctx (set buf 0 0) h))
          (λ _.
            if_lem Leaves (ltb (length buf) ((lwmp_hdr_size + wire_payload buf) % 2 ^ 64)) (λ _. h)
              (λ _. process-IsSafe env ctx (wire_payload buf) h)))

parse_chunk-IsSafe : (ctx : ClientCtx) → IsSafe ctx → IsSafe (parse_chunk ctx).1
unfolding parse_chunk process_chunk
parse_chunk-IsSafe ctx h =
    let buf = ctx.recv_buf in
    let size = chunk_size buf in
    let sender = c_string (chunk_subject buf) in
    if_lem (λ (r : Bool × ClientCtx). IsSafe r.1) (ltb (length buf) lwmp_chunk_hdr_size) (λ _. h)
      (λ _.
        if_lem (λ (r : Bool × ClientCtx). IsSafe r.1)
          (ltb (length buf) (lwmp_chunk_hdr_size + size)) (λ _. h)
          (λ _.
            if_lem IsSafe (ltb 0 size)
              (λ _. chunk_found-IsSafe ctx (chunk_payload buf size) (find_transfer ctx sender) h)
              (λ _. h)))

pub parse_step-Leaves : (env : Outside) (ctx : ClientCtx) → IsSafe ctx → Leaves (parse_step env ctx)
unfolding parse_step
parse_step-Leaves env ctx h =
    let buf = ctx.recv_buf in
    if_lem Leaves (ltb (length buf) 4) (λ _. h)
      (λ _.
        if_lem Leaves (hdr_mark buf == pdu_sync_hdr_mark) (λ _. parse_pdu-Leaves env ctx h)
          (λ _.
            if_lem Leaves (hdr_mark buf == chunk_sync_hdr_mark) (λ _. parse_chunk-IsSafe ctx h)
              (λ _.
                ctx-Leaves (resync ctx buf) (λ c. ltb 0 (length c.recv_buf))
                  (resync-LeavesCtx ctx buf h))))

parse_loop-Leaves :
    (fuel : ℕ) (env : Outside) (ctx : ClientCtx) → IsSafe ctx → LeavesCtx (parse_loop fuel env ctx)
unfolding parse_loop
parse_loop-Leaves zero env ctx h = tt
parse_loop-Leaves (suc fuel) env ctx h =
    bind-LeavesCtx (parse_step env ctx) _ (parse_step-Leaves env ctx h) (λ more c k.
      elim more as (λ m. LeavesCtx (elim m [ true ↦ parse_loop fuel env c | false ↦ some c ])) [
        | true ↦ parse_loop-Leaves fuel env c k
        | false ↦ k
      ])

fclose_all-IsSafe :
    (transfers : List FileTransfer) (ctx : ClientCtx)
    → IsSafe ctx
    → IsSafe (fclose_all transfers ctx)
unfolding fclose_all
fclose_all-IsSafe [] ctx h = h
fclose_all-IsSafe (ft ∷ transfers) ctx h =
    fclose_all-IsSafe transfers (if ft.active then fclose_fp ctx ft.fp else ctx)
      (if_lem IsSafe ft.active (λ _. fclose_fp-IsSafe ctx ft.fp h) (λ _. h))

lose_connection-IsSafe : (ctx : ClientCtx) → IsSafe ctx → IsSafe (lose_connection ctx)
unfolding lose_connection close_all_transfers
lose_connection-IsSafe ctx h =
    let lost = record ctx {
      connected = false;
      recv_buf = [];
      awaiting_resp = false;
      sending_chunks = false;
      username = [];
      server_host = [];
    } in
    emit-IsSafe (close_all_transfers lost) disconnected tt (fclose_all-IsSafe ctx.transfers lost h)

pub fill_loop-Leaves :
    (fuel : ℕ) (env : Outside) (ctx : ClientCtx) → IsSafe ctx → Leaves (fill_loop fuel env ctx)
unfolding fill_loop
fill_loop-Leaves zero env ctx h = tt
fill_loop-Leaves (suc fuel) env ctx h =
    let called = record ctx { recv_calls = ctx.recv_calls + 1 } in
    if_lem Leaves (ltb (length ctx.recv_buf) recv_buf_size)
      (λ _.
        elim (env.recv_fn ctx.recv_calls (recv_buf_size - length ctx.recv_buf))
          as (λ r. Leaves (elim r [
            | recv_block ↦ some (true, called)
            | recv_error ↦ some (false, lose_connection called)
            | got bytes ↦ fill_loop fuel env (record called { recv_buf = ctx.recv_buf ++ bytes })
          ])) [
            | recv_block ↦ h
            | recv_error ↦ lose_connection-IsSafe called h
            | got bytes ↦
                fill_loop-Leaves fuel env (record called { recv_buf = ctx.recv_buf ++ bytes }) h
          ])
      (λ _. h)

fill_and_parse-Leaves :
    (env : Outside) (ctx : ClientCtx) → IsSafe ctx → Leaves (fill_and_parse env ctx)
unfolding clrecv_fill clrecv_parse
fill_and_parse-Leaves env ctx h =
    bind-Leaves (clrecv_fill env ctx) _ (fill_loop-Leaves (recv_buf_size + 1) env ctx h)
      (λ alive c k.
        if_lem Leaves alive
          (λ _.
            ctx-Leaves (clrecv_parse env c) (λ _. true)
              (parse_loop-Leaves (length c.recv_buf + 1) env c k))
          (λ _. k))

returned : {r : Option ClientCtx} {c : ClientCtx} → r ≡ some c → LeavesCtx r → IsSafe c
returned e h = subst LeavesCtx e h

-- Whatever the server sends, in any pieces, and whatever files there are: handle_socket_data makes files
-- only under names that are not empty, hold neither of the separators / and \, and are not . or .. .
pub handle_socket_data-IsSafe :
    (env : Outside) (ctx : ClientCtx) {ctx' : ClientCtx}
    → IsSafe ctx
    → handle_socket_data env ctx ≡ some ctx'
    → IsSafe ctx'
unfolding handle_socket_data
handle_socket_data-IsSafe env ctx h e = returned e (
    bind-LeavesCtx (fill_and_parse env ctx) (λ (alive, c). some c) (fill_and_parse-Leaves env ctx h)
      (λ m c k. k))
