-- ===== src/Client/Stream.antt =====
-- clrecv_parse of client/clrecv.c takes the messages of a stream one by one.
use mathlib.Core.List.{append_assoc}
use lwmsg.Base.{
  ℕ, zero, suc, ◌+◌, ◌%◌, ◌^◌, ◌≤◌, ◌<◌, ◌≡◌, ◌⊎◌, inl, inr, refl, ap, ◌∙◌, arith, true, false, not,
  Bool-cases, some, List, [], ◌∷◌, ◌++◌, ltb, ◌==◌, length, ◌>>=◌, All, length-append,
}
use lwmsg.Lwmp.{
  lwmp_hdr_size, lwmp_chunk_hdr_size, pdu_sync_hdr_mark, chunk_sync_hdr_mark, hdr_mark, pdu_crc32,
  hdr_crc32, chunk_size,
}
use lwmsg.Client.{ClientCtx, Outside}
use lwmsg.Client.Parse.{wire_payload, parse_pdu, parse_chunk, parse_step, parse_loop, clrecv_parse}
use lwmsg.Client.Frame.{with_buf, IsPdu, IsChunk, IsFrame, receive}
use lwmsg.Client.Fields.{hdr_mark-append, crc-append, wire_payload-append}
use lwmsg.Client.Steps.{else_lem, then_lem, frame_step, chunk_size-append}

-- The bytes of the messages, and what the client makes of them in turn.
abbrev pub concat : List (List ℕ) → List ℕ
concat [] = []
concat (f ∷ frames) = f ++ concat frames

abbrev pub receive_all : Outside → ClientCtx → List (List ℕ) → ClientCtx
receive_all env ctx [] = ctx
receive_all env ctx (f ∷ frames) = receive_all env (receive env ctx f) frames

-- `t` is the begin of a message, of which a byte at least is missing.
pub record IsPartial (t : List ℕ) : Type 0 where
  pub missing : List ℕ
  pub some_missing : 0 < length missing
  pub frame : IsFrame (t ++ missing)

pdu_waits :
    (env : Outside) (ctx : ClientCtx) (t m : List ℕ)
    → 0 < length m
    → IsPdu (t ++ m)
    → parse_pdu env (with_buf t ctx) ≡ some (false, with_buf t ctx)
unfolding parse_pdu
pdu_waits env ctx t m pos p = elim (Bool-cases (ltb (length t) lwmp_hdr_size)) [
  | inl short ↦ then_lem (ltb (length t) lwmp_hdr_size) _ _ short
  | inr long ↦
      let le : 81 ≤ length t = ground arith in
      let (crc, crc') = crc-append t m le in
      let size = wire_payload-append t m le in
      let total : (lwmp_hdr_size + wire_payload t) % 2 ^ 64 ≡ length (t ++ m) =
        omega (arith, size, p.whole, p.fits) in
      else_lem (ltb (length t) lwmp_hdr_size) _ _ long
      ∙ else_lem (not (hdr_crc32 t == pdu_crc32 t)) _ _ (ground (arith, crc, crc', p.intact))
      ∙ then_lem (ltb (length t) ((lwmp_hdr_size + wire_payload t) % 2 ^ 64)) _ _
          (rw total (ground (arith, length-append t m)))
]

chunk_waits :
    (ctx : ClientCtx) (t m : List ℕ)
    → 0 < length m
    → IsChunk (t ++ m)
    → parse_chunk (with_buf t ctx) ≡ (false, with_buf t ctx)
unfolding parse_chunk
chunk_waits ctx t m pos p = elim (Bool-cases (ltb (length t) lwmp_chunk_hdr_size)) [
  | inl short ↦ then_lem (ltb (length t) lwmp_chunk_hdr_size) _ _ short
  | inr long ↦
      else_lem (ltb (length t) lwmp_chunk_hdr_size) _ _ long
      ∙ then_lem (ltb (length t) (lwmp_chunk_hdr_size + chunk_size t)) _ _
          (ground (arith, chunk_size-append t m, p.whole, length-append t m))
]

-- The loop waits for the rest of a message.
pub partial_step :
    (env : Outside) (ctx : ClientCtx) (t : List ℕ)
    → IsPartial t
    → parse_step env (with_buf t ctx) ≡ some (false, with_buf t ctx)
unfolding parse_step
partial_step env ctx t p = elim (Bool-cases (ltb (length t) 4)) [
  | inl short ↦ then_lem (ltb (length t) 4) _ _ short
  | inr long ↦
      let mark = hdr_mark-append t p.missing (ground arith) in
      else_lem (ltb (length t) 4) _ _ long ∙ elim p.frame [
        | inl q ↦
            then_lem (hdr_mark t == pdu_sync_hdr_mark) _ _ (ground (arith, mark, q.marked))
            ∙ pdu_waits env ctx t p.missing p.some_missing q
        | inr q ↦
            else_lem (hdr_mark t == pdu_sync_hdr_mark) _ _ (ground (arith, mark, q.marked))
            ∙ then_lem (hdr_mark t == chunk_sync_hdr_mark) _ _ (ground (arith, mark, q.marked))
            ∙ ap some (chunk_waits ctx t p.missing p.some_missing q)
      ]
]

pub length-frame : (f : List ℕ) → IsFrame f → lwmp_chunk_hdr_size ≤ length f
length-frame f (inl p) = omega (arith, p.whole)
length-frame f (inr p) = omega (arith, p.whole)

next_frame :
    (fuel : ℕ) (env : Outside) (ctx : ClientCtx) (f rest : List ℕ)
    → IsFrame f
    → parse_loop (suc fuel) env (with_buf (f ++ rest) ctx)
      ≡ parse_loop fuel env (with_buf rest (receive env ctx f))
unfolding parse_loop
next_frame fuel env ctx f rest p =
    ap
      (λ r.
        r >>= (λ (more, ctx'). elim more [ true ↦ parse_loop fuel env ctx' | false ↦ some ctx' ]))
      (frame_step env ctx f rest p)

ends_partial :
    (fuel : ℕ) (env : Outside) (ctx : ClientCtx) (t : List ℕ)
    → (t ≡ []) ⊎ IsPartial t
    → parse_loop (suc fuel) env (with_buf t ctx) ≡ some (with_buf t ctx)
unfolding parse_loop parse_step
ends_partial fuel env ctx [] (inl e) = refl
ends_partial fuel env ctx (x ∷ t) (inl e) = absurd (ground arith)
ends_partial fuel env ctx t (inr p) =
    ap
      (λ r.
        r >>= (λ (more, ctx'). elim more [ true ↦ parse_loop fuel env ctx' | false ↦ some ctx' ]))
      (partial_step env ctx t p)

parse_loop-frames :
    (fuel : ℕ) (env : Outside) (ctx : ClientCtx) (frames : List (List ℕ)) (t : List ℕ)
    → All IsFrame frames
    → (t ≡ []) ⊎ IsPartial t
    → length (concat frames ++ t) < fuel
    → parse_loop fuel env (with_buf (concat frames ++ t) ctx)
      ≡ some (with_buf t (receive_all env ctx frames))
parse_loop-frames zero env ctx frames t ps p h = absurd (omega arith)
parse_loop-frames (suc fuel) env ctx [] t ps p h = ends_partial fuel env ctx t p
parse_loop-frames (suc fuel) env ctx (f ∷ frames) t ps p h =
    let assoc = append_assoc f (concat frames) t in
    ap (λ b. parse_loop (suc fuel) env (with_buf b ctx)) assoc
    ∙ next_frame fuel env ctx f (concat frames ++ t) ps.0
    ∙ parse_loop-frames fuel env (receive env ctx f) frames t ps.1 p
        (omega (arith, ap length assoc, length-append f (concat frames ++ t), length-frame f ps.0))

-- Whole messages in the buffer, and the begin of one more, leave what the handlers make of the
-- messages one by one, and that begin in the buffer.
pub clrecv_parse-frames :
    (env : Outside) (ctx : ClientCtx) (frames : List (List ℕ)) (t : List ℕ)
    → All IsFrame frames
    → (t ≡ []) ⊎ IsPartial t
    → clrecv_parse env (with_buf (concat frames ++ t) ctx)
      ≡ some (with_buf t (receive_all env ctx frames))
unfolding clrecv_parse
clrecv_parse-frames env ctx frames t ps p =
    parse_loop-frames (length (concat frames ++ t) + 1) env ctx frames t ps p (omega arith)
