-- ===== src/Client/Shorter.antt =====
-- Each round of clrecv_parse of client/clrecv.c that goes on takes bytes out of the buffer, but for a
-- header whose size overflows.
use lwmsg.Base.{
  ℕ, suc, ◌+◌, ◌-◌, ◌%◌, ◌^◌, ◌≤◌, ◌<◌, ◌≡◌, ◌⊎◌, inl, inr, refl, sym, ap, subst, arith, Bool, true,
  false, not, Bool-cases, ◌&&◌, some, List, [], ◌∷◌, ltb, ◌==◌, if◌then◌else◌, length, set,
  length-set, length-drop, ◌>>=◌, Returns,
}
use lwmsg.Base.Memory.{be_decode, slice}
use lwmsg.Lwmp.{
  lwmp_hdr_size, lwmp_chunk_hdr_size, pdu_sync_hdr_mark, chunk_sync_hdr_mark, mt_msg, mt_info,
  mt_req, mt_file, hdr_mark, msg_type, req_type, subject_uname, hdr_crc32, pdu_crc32, chunk_size,
  chunk_subject, chunk_payload, starts_with_mark,
}
use lwmsg.Lwmp.Resync.{is_candidate, first_candidate, stream_resync-eq-first_candidate}
use lwmsg.Session.Inbound.{c_string}
use lwmsg.Client.{ClientCtx, Outside}
use lwmsg.Client.Receive.{
  resp_ok, has_text, print_server_resp, handle_msg, handle_info, handle_req, cache_userlist,
  process_received_pdu,
}
use lwmsg.Client.Parse.{wire_payload, process_chunk, parse_pdu, parse_chunk, parse_step, resync}
use lwmsg.Client.Rest.{if_lem, handle_file-Has}
use lwmsg.Client.Steps.{process_chunk-with_buf}

module _ (env : Outside) (ctx : ClientCtx) where
  -- As many bytes as before.
  abbrev Same : ClientCtx → Type 0
  Same c = length c.recv_buf ≡ length ctx.recv_buf

  handle_msg-Same : (sender : List ℕ) (w : ℕ) → Same (handle_msg ctx sender w)
  unfolding handle_msg
  handle_msg-Same sender w =
      length-set ctx.recv_buf (lwmp_hdr_size + (if has_text w then w - 1 else 0)) 0

  print_server_resp-Same : (w code : ℕ) → Same (print_server_resp ctx w code)
  unfolding print_server_resp
  print_server_resp-Same w code =
      if_lem Same (code == resp_ok) (λ _. refl)
        (λ _.
          if_lem Same (has_text w) (λ _. length-set ctx.recv_buf (lwmp_hdr_size + (w - 1)) 0)
            (λ _. refl))

  handle_info-Same : (w code : ℕ) → Same (handle_info ctx w code)
  unfolding handle_info
  handle_info-Same w code =
      let printed = print_server_resp ctx w code in
      let same = print_server_resp-Same w code in
      let answered =
        if printed.awaiting_resp
        then record printed { last_resp_code = code; awaiting_resp = false }
        else printed in
      let still : Same answered = if_lem Same printed.awaiting_resp (λ _. same) (λ _. same) in
      if_lem Same (answered.sending_chunks && not (code == resp_ok)) (λ _. still) (λ _. still)

  handle_req-Same : (w code : ℕ) → Same (handle_req ctx w code)
  unfolding handle_req cache_userlist
  handle_req-Same w code =
      if_lem Same (code == resp_ok && ltb 0 w) (λ _. refl) (λ _. print_server_resp-Same w code)

  process-Same : (w : ℕ) → Same (process_received_pdu env ctx w)
  unfolding process_received_pdu
  process-Same w =
      let buf = ctx.recv_buf in
      let sender = c_string (subject_uname buf) in
      let code = req_type buf in
      if_lem Same (msg_type buf == mt_msg) (λ _. handle_msg-Same sender w)
        (λ _.
          if_lem Same (msg_type buf == mt_info) (λ _. handle_info-Same w code)
            (λ _.
              if_lem Same (msg_type buf == mt_req) (λ _. handle_req-Same w code)
                (λ _.
                  if_lem Same (msg_type buf == mt_file)
                    (λ _. ap length (handle_file-Has buf env ctx sender w refl)) (λ _. refl))))

process_chunk-Same :
    (ctx : ClientCtx) (sender payload : List ℕ)
    → length (process_chunk ctx sender payload).recv_buf ≡ length ctx.recv_buf
process_chunk-Same ctx sender payload =
    ap (λ (c : ClientCtx). length c.recv_buf)
      (process_chunk-with_buf ctx.recv_buf ctx sender payload)

length-first_candidate : (buf : List ℕ) → length (first_candidate buf) ≤ length buf
unfolding first_candidate
length-first_candidate [] = omega arith
length-first_candidate (x ∷ buf) =
    if_lem (λ l. length l ≤ suc (length buf)) (is_candidate (x ∷ buf)) {x = x ∷ buf}
      {y = first_candidate buf} (λ _. omega arith) (λ _. omega (arith, length-first_candidate buf))

-- Where the buffer does not begin with the mark, the search leaves less of it.
length-first_candidate_lt :
    (buf : List ℕ)
    → 0 < length buf
    → starts_with_mark buf ≡ false
    → length (first_candidate buf) < length buf
unfolding first_candidate is_candidate
length-first_candidate_lt [] pos e = absurd (omega arith)
length-first_candidate_lt (x ∷ buf) pos e = ground (arith, e, length-first_candidate buf)

not-starts_with_mark :
    (buf : List ℕ) → (hdr_mark buf == pdu_sync_hdr_mark) ≡ false → starts_with_mark buf ≡ false
unfolding starts_with_mark hdr_mark slice be_decode
not-starts_with_mark [] e = refl
not-starts_with_mark (a ∷ []) e = refl
not-starts_with_mark (a ∷ b ∷ []) e = refl
not-starts_with_mark (a ∷ b ∷ c ∷ []) e = refl
not-starts_with_mark (a ∷ b ∷ c ∷ d ∷ buf) e = ground (arith, e)

zero-starts_with_mark : (buf : List ℕ) → 0 < length buf → starts_with_mark (set buf 0 0) ≡ false
unfolding starts_with_mark
zero-starts_with_mark [] pos = absurd (omega arith)
zero-starts_with_mark (a ∷ []) pos = refl
zero-starts_with_mark (a ∷ b ∷ []) pos = refl
zero-starts_with_mark (a ∷ b ∷ c ∷ []) pos = refl
zero-starts_with_mark (a ∷ b ∷ c ∷ d ∷ buf) pos = refl

-- The header in the buffer has a size that overflows once the header is added.
pub record IsHuge (ctx : ClientCtx) : Type 0 where
  pub marked : hdr_mark ctx.recv_buf ≡ pdu_sync_hdr_mark
  pub intact : hdr_crc32 ctx.recv_buf ≡ pdu_crc32 ctx.recv_buf
  pub huge : 2 ^ 64 ≤ lwmp_hdr_size + wire_payload ctx.recv_buf

abbrev pub Progress : ClientCtx → Bool × ClientCtx → Type 0
Progress ctx (true, ctx') = (length ctx'.recv_buf < length ctx.recv_buf) ⊎ IsHuge ctx
Progress ctx (false, ctx') = Unit {0}

resync-Progress :
    (ctx : ClientCtx) (buf : List ℕ) (more : ClientCtx → Bool)
    → length buf ≡ length ctx.recv_buf
    → 0 < length buf
    → starts_with_mark buf ≡ false
    → Returns (Progress ctx) (resync ctx buf >>= (λ c. some (more c, c)))
resync-Progress ctx buf more len pos e =
    let c = record ctx { recv_buf = first_candidate buf } in
    subst
      (λ r.
        Returns (Progress ctx)
          (r >>= (λ left. some (record ctx { recv_buf = left })) >>= (λ c. some (more c, c))))
      (sym (stream_resync-eq-first_candidate buf))
      (
        (more c, c),
        refl,
        elim (more c) as (λ b. Progress ctx (b, c)) [
          | true ↦ inl (omega (arith, len, length-first_candidate_lt buf pos e))
          | false ↦ tt
        ],
      )

parse_pdu-Progress :
    (env : Outside) (ctx : ClientCtx)
    → hdr_mark ctx.recv_buf ≡ pdu_sync_hdr_mark
    → Returns (Progress ctx) (parse_pdu env ctx)
unfolding parse_pdu
parse_pdu-Progress env ctx mark =
    let buf = ctx.recv_buf in
    let w = wire_payload buf in
    let needed = (lwmp_hdr_size + w) % 2 ^ 64 in
    let Done = Returns (Progress ctx) in
    if_lem Done (ltb (length buf) lwmp_hdr_size) (λ _. (_, refl, tt))
      (λ long.
        let pos : 0 < length buf = ground arith in
        if_lem Done (not (hdr_crc32 buf == pdu_crc32 buf))
          (λ _.
            resync-Progress ctx (set buf 0 0) (λ c. true) (length-set buf 0 0)
              (omega (arith, length-set buf 0 0)) (zero-starts_with_mark buf pos))
          (λ good.
            if_lem Done (ltb (length buf) needed) (λ _. (_, refl, tt))
              (λ all. (
                _,
                refl,
                elim (Bool-cases (ltb (lwmp_hdr_size + w) (2 ^ 64))) [
                  | inl small ↦
                      let fits : needed ≡ lwmp_hdr_size + w = ground arith in
                      inl (
                        omega (
                          arith,
                          fits,
                          pos,
                          length-drop needed (process_received_pdu env ctx w).recv_buf,
                          process-Same env ctx w,
                        ))
                  | inr big ↦
                      inr (record { marked = mark; intact = ground arith; huge = ground arith })
                ],
              ))))

parse_chunk-Progress : (ctx : ClientCtx) → Progress ctx (parse_chunk ctx)
unfolding parse_chunk
parse_chunk-Progress ctx =
    let buf = ctx.recv_buf in
    let size = chunk_size buf in
    let needed = lwmp_chunk_hdr_size + size in
    let handled =
      if ltb 0 size
      then process_chunk ctx (c_string (chunk_subject buf)) (chunk_payload buf size)
      else ctx in
    if_lem (Progress ctx) (ltb (length buf) lwmp_chunk_hdr_size) (λ _. tt)
      (λ long.
        if_lem (Progress ctx) (ltb (length buf) needed) (λ _. tt)
          (λ all.
            let pos : 0 < length buf = ground arith in
            let same : length handled.recv_buf ≡ length buf =
              if_lem (λ (c : ClientCtx). length c.recv_buf ≡ length buf) (ltb 0 size)
                (λ _.
                  process_chunk-Same ctx (c_string (chunk_subject buf)) (chunk_payload buf size))
                (λ _. refl) in
            inl (omega (arith, pos, same, length-drop needed handled.recv_buf))))

pub parse_step-Progress :
    (env : Outside) (ctx : ClientCtx) → Returns (Progress ctx) (parse_step env ctx)
unfolding parse_step
parse_step-Progress env ctx =
    let buf = ctx.recv_buf in
    let Done = Returns (Progress ctx) in
    if_lem Done (ltb (length buf) 4) (λ _. (_, refl, tt))
      (λ long.
        let pos : 0 < length buf = ground arith in
        if_lem Done (hdr_mark buf == pdu_sync_hdr_mark)
          (λ mark. parse_pdu-Progress env ctx (ground arith))
          (λ other.
            if_lem Done (hdr_mark buf == chunk_sync_hdr_mark)
              (λ _. (_, refl, parse_chunk-Progress ctx))
              (λ _.
                resync-Progress ctx buf (λ c. ltb 0 (length c.recv_buf)) refl pos
                  (not-starts_with_mark buf other))))
