-- ===== src/Client/Overfull.antt =====
-- Sizes that client/clrecv.c cannot take: a message that is larger than the buffer of the client, and
-- one whose size passes the end of a uint64_t when the header is added.
use lwmsg.Base.{
  ℕ, zero, suc, ◌+◌, ◌%◌, ◌^◌, ◌≤◌, ◌<◌, ◌≡◌, ◌≢◌, refl, sym, subst, ap, ◌∙◌, arith, Bool, true,
  false, not, Option, none, some, ◌==◌, ltb, ◌&&◌, if◌then◌else◌, length, drop, ◌>>=◌,
}
use lwmsg.Lwmp.{
  lwmp_hdr_size, lwmp_pdu_buf_size, pdu_sync_hdr_mark, mt_file, mt_msg, mt_info, hdr_mark, msg_type,
  req_type, total_msg_size, hdr_crc32, pdu_crc32,
}
use lwmsg.Client.{ClientCtx, Outside, recv_buf_size}
use lwmsg.Client.Receive.{handle_info, print_server_resp, process_received_pdu}
use lwmsg.Client.Parse.{
  wire_payload, parse_pdu, parse_step, parse_loop, clrecv_parse, fill_loop, clrecv_fill,
  handle_socket_data,
}
use lwmsg.Client.Steps.{then_lem, else_lem}

-- The buffer begins with a header that is in order, of a message that is no file.
pub record HasHeader (ctx : ClientCtx) (size : ℕ) : Type 0 where
  pub whole : lwmp_hdr_size ≤ length ctx.recv_buf
  pub marked : hdr_mark ctx.recv_buf ≡ pdu_sync_hdr_mark
  pub intact : hdr_crc32 ctx.recv_buf ≡ pdu_crc32 ctx.recv_buf
  pub not_file : msg_type ctx.recv_buf ≢ mt_file
  pub sized : total_msg_size ctx.recv_buf ≡ size

wire_payload-HasHeader :
    (ctx : ClientCtx) (size : ℕ) → HasHeader ctx size → wire_payload ctx.recv_buf ≡ size
unfolding wire_payload
wire_payload-HasHeader ctx size h =
    else_lem
      (msg_type ctx.recv_buf == mt_file && ltb lwmp_pdu_buf_size (total_msg_size ctx.recv_buf)) _ _
      (ground (arith, h.not_file))
    ∙ h.sized

step_pdu :
    (env : Outside) (ctx : ClientCtx) (size : ℕ)
    → HasHeader ctx size
    → parse_step env ctx ≡ (
        if ltb (length ctx.recv_buf) ((lwmp_hdr_size + size) % 2 ^ 64)
        then some (false, ctx)
        else some (
          true,
          record (process_received_pdu env ctx size) {
            recv_buf =
                drop ((lwmp_hdr_size + size) % 2 ^ 64) (process_received_pdu env ctx size).recv_buf;
          },
        ))
unfolding parse_step parse_pdu
step_pdu env ctx size h =
    let buf = ctx.recv_buf in
    else_lem (ltb (length buf) 4) _ _ (ground (arith, h.whole))
    ∙ then_lem (hdr_mark buf == pdu_sync_hdr_mark) _ _ (ground (arith, h.marked))
    ∙ else_lem (ltb (length buf) lwmp_hdr_size) _ _ (ground (arith, h.whole))
    ∙ else_lem (not (hdr_crc32 buf == pdu_crc32 buf)) _ _ (ground (arith, h.intact))
    ∙ ap
        (λ (w : ℕ).
          if ltb (length buf) ((lwmp_hdr_size + w) % 2 ^ 64)
          then some (false, ctx)
          else some (
            true,
            record (process_received_pdu env ctx w) {
              recv_buf =
                  drop ((lwmp_hdr_size + w) % 2 ^ 64) (process_received_pdu env ctx w).recv_buf;
            },
          ))
        (wire_payload-HasHeader ctx size h)

fill_loop-full :
    (fuel : ℕ) (env : Outside) (ctx : ClientCtx)
    → length ctx.recv_buf ≡ recv_buf_size
    → fill_loop (suc fuel) env ctx ≡ some (true, ctx)
unfolding fill_loop
fill_loop-full fuel env ctx full =
    else_lem (ltb (length ctx.recv_buf) recv_buf_size) _ _ (ground (arith, full))

parse_loop-waits :
    (fuel : ℕ) (env : Outside) (ctx : ClientCtx)
    → parse_step env ctx ≡ some (false, ctx)
    → parse_loop (suc fuel) env ctx ≡ some ctx
unfolding parse_loop
parse_loop-waits fuel env ctx e =
    ap
      (λ r.
        r >>= (λ (more, ctx'). elim more [ true ↦ parse_loop fuel env ctx' | false ↦ some ctx' ]))
      e

-- Once the client's buffer is full, and begins with the header of a message that is no file and needs
-- more than the buffer, handle_socket_data receives nothing and leaves everything as it is.
pub handle_socket_data-overfull :
    (env : Outside) (ctx : ClientCtx) (size : ℕ)
    → length ctx.recv_buf ≡ recv_buf_size
    → HasHeader ctx size
    → recv_buf_size < lwmp_hdr_size + size
    → lwmp_hdr_size + size < 2 ^ 64
    → handle_socket_data env ctx ≡ some ctx
unfolding handle_socket_data clrecv_fill clrecv_parse
handle_socket_data-overfull env ctx size full h over word =
    let small : (lwmp_hdr_size + size) % 2 ^ 64 ≡ lwmp_hdr_size + size = omega arith in
    let next : length ctx.recv_buf + 1 ≡ suc (length ctx.recv_buf) = omega arith in
    let waits : parse_step env ctx ≡ some (false, ctx) =
      step_pdu env ctx size h
      ∙ then_lem (ltb (length ctx.recv_buf) ((lwmp_hdr_size + size) % 2 ^ 64)) _ _
          (rw small (ground (arith, full))) in
    ap
      (λ (r : Option (Bool × ClientCtx)).
        (r >>= (λ (alive, c).
          if alive
          then parse_loop (length c.recv_buf + 1) env c >>= (λ parsed. some (true, parsed))
          else some (false, c)))
        >>= (λ (alive, c). some c))
      (fill_loop-full recv_buf_size env ctx full)
    ∙ ap
        (λ (r : Option ClientCtx).
          (r >>= (λ parsed. some (true, parsed))) >>= (λ (alive, c). some c))
        (ap (λ n. parse_loop n env ctx) next ∙ parse_loop-waits (length ctx.recv_buf) env ctx waits)

-- A notice of the server leaves the buffer as it is, unless it has a text that fits a PDU.
handle_info-recv_buf :
    (ctx : ClientCtx) (size code : ℕ)
    → lwmp_pdu_buf_size < size
    → (handle_info ctx size code).recv_buf ≡ ctx.recv_buf
unfolding handle_info print_server_resp
handle_info-recv_buf ctx size code big = ground arith

ltb_zero : (n : ℕ) → ltb n 0 ≡ false
ltb_zero n = ground arith

huge_step :
    (env : Outside) (ctx : ClientCtx) (size : ℕ)
    → HasHeader ctx size
    → msg_type ctx.recv_buf ≡ mt_info
    → lwmp_hdr_size + size ≡ 2 ^ 64
    → (ctx' : ClientCtx) × (parse_step env ctx ≡ some (true, ctx')) × (ctx'.recv_buf ≡ ctx.recv_buf)
unfolding process_received_pdu
huge_step env ctx size h info huge =
    let none_needed : (lwmp_hdr_size + size) % 2 ^ 64 ≡ 0 = omega arith in
    let code = req_type ctx.recv_buf in
    let answered = process_received_pdu env ctx size in
    let handled : answered ≡ handle_info ctx size code =
      else_lem (msg_type ctx.recv_buf == mt_msg) _ _ (ground (arith, info))
      ∙ then_lem (msg_type ctx.recv_buf == mt_info) _ _ (ground (arith, info)) in
    (
      record answered { recv_buf = drop 0 answered.recv_buf },
      step_pdu env ctx size h
          ∙ else_lem (ltb (length ctx.recv_buf) ((lwmp_hdr_size + size) % 2 ^ 64)) _ _
              (rw none_needed (ltb_zero (length ctx.recv_buf)))
          ∙ ap (λ (n : ℕ). some (true, record answered { recv_buf = drop n answered.recv_buf }))
              none_needed,
      ap (λ (c : ClientCtx). c.recv_buf) handled ∙ handle_info-recv_buf ctx size code (omega arith),
    )

-- Once the client's buffer begins with the header of a notice whose size, with the header, is 2 ^ 64, the
-- loop of clrecv_parse does not end: no fuel is enough.
pub parse_loop-huge :
    (fuel : ℕ) (env : Outside) (ctx : ClientCtx) (size : ℕ)
    → HasHeader ctx size
    → msg_type ctx.recv_buf ≡ mt_info
    → lwmp_hdr_size + size ≡ 2 ^ 64
    → parse_loop fuel env ctx ≡ none
unfolding parse_loop
parse_loop-huge zero env ctx size h info huge = refl
parse_loop-huge (suc fuel) env ctx size h info huge =
    let (ctx', step, same) = huge_step env ctx size h info huge in
    let h' : HasHeader ctx' size = record {
      whole = omega (arith, h.whole, ap length same);
      marked = ap hdr_mark same ∙ h.marked;
      intact = ap hdr_crc32 same ∙ h.intact ∙ sym (ap pdu_crc32 same);
      not_file = subst (λ b. msg_type b ≢ mt_file) (sym same) h.not_file;
      sized = ap total_msg_size same ∙ h.sized;
    } in
    ap (λ r. r >>= (λ (more, c). elim more [ true ↦ parse_loop fuel env c | false ↦ some c ])) step
    ∙ parse_loop-huge fuel env ctx' size h' (ap msg_type same ∙ info) huge
