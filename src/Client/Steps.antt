-- ===== src/Client/Steps.antt =====
-- A round of clrecv_parse of client/clrecv.c for a whole message.
use lwmsg.Base.{
  ℕ, ◌+◌, ◌%◌, ◌^◌, ◌≤◌, ◌<◌, ◌≡◌, ◌≢◌, ◌⊎◌, inl, inr, refl, sym, ap, subst, ◌∙◌, arith, Bool, true,
  false, not, Option, none, some, List, ◌++◌, ltb, leb, ◌==◌, if◌then◌else◌, length, set,
  drop-append_self, length-append,
}
use lwmsg.Base.Memory.{slice, be_decode, slice-append}
use lwmsg.Lwmp.{
  lwmp_hdr_size, lwmp_chunk_hdr_size, pdu_sync_hdr_mark, chunk_sync_hdr_mark, mt_msg, hdr_mark,
  msg_type, pdu_crc32, hdr_crc32, chunk_size, chunk_subject, chunk_payload,
}
use lwmsg.Session.Inbound.{c_string}
use lwmsg.Client.{emit, received_file, ClientCtx, FileTransfer, Outside}
use lwmsg.Client.Receive.{process_received_pdu, find_transfer, fwrite_fp, fclose_fp, end_transfer}
use lwmsg.Client.Parse.{
  wire_payload, append_chunk, chunk_found, process_chunk, consume, parse_pdu, parse_chunk,
  parse_step,
}
use lwmsg.Client.Frame.{
  fclose_fp-with_buf, with_buf, IsPdu, IsChunk, IsFrame, receive, receive_pdu, receive_chunk,
}
use lwmsg.Client.Rest.{process-rest}
use lwmsg.Client.Fields.{
  msg_type-append, hdr_mark-append, crc-append, wire_payload-append, process-append,
}

pub else_lem : {A : Type 0} (b : Bool) (x y : A) → b ≡ false → (if b then x else y) ≡ y
else_lem true x y e = absurd (ground arith)
else_lem false x y e = refl

pub then_lem : {A : Type 0} (b : Bool) (x y : A) → b ≡ true → (if b then x else y) ≡ x
then_lem true x y e = refl
then_lem false x y e = absurd (ground arith)

if-commute :
    {A B : Type 0} (g : A → B) (b : Bool) (x y : A)
    → (if b then g x else g y) ≡ g (if b then x else y)
if-commute g true x y = refl
if-commute g false x y = refl

-- The rounds of the loop for a whole PDU.
pub parse_pdu-whole :
    (env : Outside) (ctx : ClientCtx) (w : ℕ)
    → lwmp_hdr_size + w ≤ length ctx.recv_buf
    → lwmp_hdr_size + w < 2 ^ 64
    → hdr_crc32 ctx.recv_buf ≡ pdu_crc32 ctx.recv_buf
    → wire_payload ctx.recv_buf ≡ w
    → parse_pdu env ctx ≡ some (true, consume (process_received_pdu env ctx w) (lwmp_hdr_size + w))
unfolding parse_pdu
parse_pdu-whole env ctx w there small intact size =
    let buf = ctx.recv_buf in
    let total : (lwmp_hdr_size + wire_payload buf) % 2 ^ 64 ≡ lwmp_hdr_size + w =
      omega (arith, size) in
    let whole : ltb (length buf) lwmp_hdr_size ≡ false = ground arith in
    let agree : not (hdr_crc32 buf == pdu_crc32 buf) ≡ false = ground arith in
    let all : ltb (length buf) ((lwmp_hdr_size + wire_payload buf) % 2 ^ 64) ≡ false =
      rw total (ground arith) in
    let done : ℕ → ℕ → Option (Bool × ClientCtx) =
      λ v n. some (true, consume (process_received_pdu env ctx v) n) in
    else_lem (ltb (length buf) lwmp_hdr_size) _ _ whole
    ∙ else_lem (not (hdr_crc32 buf == pdu_crc32 buf)) _ _ agree
    ∙ else_lem (ltb (length buf) ((lwmp_hdr_size + wire_payload buf) % 2 ^ 64)) _ _ all
    ∙ ap (λ v. done v ((lwmp_hdr_size + wire_payload buf) % 2 ^ 64)) size
    ∙ ap (done w) total

receive_pdu-step :
    (env : Outside) (ctx : ClientCtx) (f rest : List ℕ)
    → IsPdu f
    → parse_pdu env (with_buf (f ++ rest) ctx) ≡ some (true, with_buf rest (receive_pdu env ctx f))
receive_pdu-step env ctx f rest p =
    let w = wire_payload f in
    let long = with_buf (f ++ rest) ctx in
    let (crc, crc') = crc-append f rest (omega (arith, p.whole)) in
    let full : (msg_type f ≢ mt_msg) ⊎ (0 < w) = p.not_empty in
    let full' =
      subst (λ t. (t ≢ mt_msg) ⊎ (0 < w)) (sym (msg_type-append f rest (omega (arith, p.whole))))
        full in
    parse_pdu-whole env long w (omega (arith, p.whole, length-append f rest))
      (omega (arith, p.whole, p.fits)) (crc ∙ p.intact ∙ sym crc')
      (wire_payload-append f rest (omega (arith, p.whole)))
    ∙ ap (λ b. some (true, with_buf b (process_received_pdu env long w)))
        (process-rest f rest w env ctx p.whole full')
    ∙ ap (λ c. some (true, c)) (process-append f rest env ctx rest w p.whole full)

pub chunk_size-append : (f rest : List ℕ) → 6 ≤ length f → chunk_size (f ++ rest) ≡ chunk_size f
unfolding chunk_size
chunk_size-append f rest h = ap be_decode (slice-append f rest 4 2 (omega arith))

parse_chunk-whole :
    (ctx : ClientCtx) (n : ℕ)
    → lwmp_chunk_hdr_size + n ≤ length ctx.recv_buf
    → chunk_size ctx.recv_buf ≡ n
    → parse_chunk ctx ≡ (
      true,
      consume
          (if ltb 0 n
            then process_chunk ctx
                (c_string (chunk_subject ctx.recv_buf))
                (chunk_payload ctx.recv_buf n)
            else ctx)
          (lwmp_chunk_hdr_size + n),
    )
unfolding parse_chunk
parse_chunk-whole ctx n there size =
    let buf = ctx.recv_buf in
    let whole : ltb (length buf) lwmp_chunk_hdr_size ≡ false = ground arith in
    let all : ltb (length buf) (lwmp_chunk_hdr_size + chunk_size buf) ≡ false = ground arith in
    else_lem (ltb (length buf) lwmp_chunk_hdr_size) _ _ whole
    ∙ else_lem (ltb (length buf) (lwmp_chunk_hdr_size + chunk_size buf)) _ _ all
    ∙ ap
        (λ (m : ℕ). (
          true,
          consume
              (if ltb 0 m
                then process_chunk ctx (c_string (chunk_subject buf)) (chunk_payload buf m)
                else ctx)
              (lwmp_chunk_hdr_size + m),
        ))
        size

-- The handler of a chunk does not touch the buffer.
fwrite_fp-with_buf :
    (b : List ℕ) (ctx : ClientCtx) (fp : Option ℕ) (bytes : List ℕ)
    → fwrite_fp (with_buf b ctx) fp bytes ≡ with_buf b (fwrite_fp ctx fp bytes)
fwrite_fp-with_buf b ctx none bytes = refl
fwrite_fp-with_buf b ctx (some fp) bytes = refl

append_chunk-with_buf :
    (b : List ℕ) (ctx : ClientCtx) (i : ℕ) (ft : FileTransfer) (payload : List ℕ)
    → append_chunk (with_buf b ctx) i ft payload ≡ with_buf b (append_chunk ctx i ft payload)
unfolding append_chunk
append_chunk-with_buf b ctx i ft payload =
    let ft' = record ft { received = (ft.received + length payload) % 2 ^ 64 } in
    let written = fwrite_fp ctx ft.fp payload in
    let last = λ (c : ClientCtx).
      emit (end_transfer c i ft') (received_file ft.sender ft.filename ft.expected_size) in
    let more = λ (c : ClientCtx). record c { transfers = set c.transfers i ft' } in
    let full = leb ft.expected_size ft'.received in
    ap (λ c. if full then last (fclose_fp c ft.fp) else more c)
      (fwrite_fp-with_buf b ctx ft.fp payload)
    ∙ ap (λ c. if full then last c else more (with_buf b written))
        (fclose_fp-with_buf b written ft.fp)
    ∙ if-commute (with_buf b) full (last (fclose_fp written ft.fp)) (more written)

chunk_found-with_buf :
    (b : List ℕ) (ctx : ClientCtx) (payload : List ℕ) (found : Option (ℕ × FileTransfer))
    → chunk_found (with_buf b ctx) payload found ≡ with_buf b (chunk_found ctx payload found)
unfolding chunk_found
chunk_found-with_buf b ctx payload none = refl
chunk_found-with_buf b ctx payload (some (i, ft)) = append_chunk-with_buf b ctx i ft payload

pub process_chunk-with_buf :
    (b : List ℕ) (ctx : ClientCtx) (sender payload : List ℕ)
    → process_chunk (with_buf b ctx) sender payload ≡ with_buf b (process_chunk ctx sender payload)
unfolding process_chunk
process_chunk-with_buf b ctx sender payload =
    chunk_found-with_buf b ctx payload (find_transfer ctx sender)

receive_chunk-step :
    (ctx : ClientCtx) (f rest : List ℕ)
    → IsChunk f
    → parse_chunk (with_buf (f ++ rest) ctx) ≡ (true, with_buf rest (receive_chunk ctx f))
unfolding chunk_subject chunk_payload
receive_chunk-step ctx f rest p =
    let n = chunk_size f in
    let long = f ++ rest in
    let go : List ℕ → List ℕ → Bool × ClientCtx =
      λ s d. (true, with_buf rest (if ltb 0 n then process_chunk ctx (c_string s) d else ctx)) in
    parse_chunk-whole (with_buf long ctx) n (omega (arith, p.whole, length-append f rest))
      (chunk_size-append f rest (omega (arith, p.whole)))
    ∙ ap (λ c. (true, consume c (lwmp_chunk_hdr_size + n)))
        (ap (λ c. if ltb 0 n then c else with_buf long ctx)
            (process_chunk-with_buf long ctx (c_string (chunk_subject long)) (chunk_payload long n))
          ∙ if-commute (with_buf long) (ltb 0 n)
              (process_chunk ctx (c_string (chunk_subject long)) (chunk_payload long n)) ctx)
    ∙ ap
        (λ b. (
          true,
          with_buf b (
              if ltb 0 n
              then process_chunk ctx (c_string (chunk_subject long)) (chunk_payload long n)
              else ctx),
        ))
        (drop-append_self (lwmp_chunk_hdr_size + n) f rest p.whole)
    ∙ ap (λ s. go s (slice long 38 n)) (slice-append f rest 6 32 (omega (arith, p.whole)))
    ∙ ap (go (slice f 6 32)) (slice-append f rest 38 n (omega (arith, p.whole)))

-- A round of the loop takes the message that the buffer begins with.
pub frame_step :
    (env : Outside) (ctx : ClientCtx) (f rest : List ℕ)
    → IsFrame f
    → parse_step env (with_buf (f ++ rest) ctx) ≡ some (true, with_buf rest (receive env ctx f))
unfolding parse_step receive
frame_step env ctx f rest (inl p) =
    let long = f ++ rest in
    let mark = hdr_mark-append f rest (omega (arith, p.whole)) ∙ p.marked in
    else_lem (ltb (length long) 4) _ _ (ground (arith, p.whole, length-append f rest))
    ∙ then_lem (hdr_mark long == pdu_sync_hdr_mark) _ _ (ground (arith, mark))
    ∙ receive_pdu-step env ctx f rest p
    ∙ ap (λ c. some (true, with_buf rest c))
        (sym (then_lem (hdr_mark f == pdu_sync_hdr_mark) _ _ (ground (arith, p.marked))))
frame_step env ctx f rest (inr p) =
    let long = f ++ rest in
    let mark = hdr_mark-append f rest (omega (arith, p.whole)) ∙ p.marked in
    else_lem (ltb (length long) 4) _ _ (ground (arith, p.whole, length-append f rest))
    ∙ else_lem (hdr_mark long == pdu_sync_hdr_mark) _ _ (ground (arith, mark))
    ∙ then_lem (hdr_mark long == chunk_sync_hdr_mark) _ _ (ground (arith, mark))
    ∙ ap some (receive_chunk-step ctx f rest p)
    ∙ ap (λ c. some (true, with_buf rest c))
        (sym (else_lem (hdr_mark f == pdu_sync_hdr_mark) _ _ (ground (arith, p.marked))))
