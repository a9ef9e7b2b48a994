-- ===== src/Client/Frame.antt =====
-- The messages of the stream that the client of client/clrecv.c receives, each as the list of its
-- bytes, and what a round of clrecv_parse makes of one.
use lwmsg.Base.{
  ℕ, zero, suc, ◌+◌, ◌-◌, ◌≤◌, ◌<◌, ◌≡◌, ◌≢◌, ◌⊎◌, inl, inr, refl, sym, ap, ◌∙◌, arith, Bool, true,
  false, ◌&&◌, Option, none, some, List, [], ◌∷◌, ◌++◌, ltb, leb, ◌==◌, if◌then◌else◌, length, take,
  drop, set, drop-append, take-append, set-append, drop-set, length-drop, length-set,
}
use lwmsg.Base.Memory.{be_decode, slice-append}
use lwmsg.Lwmp.{
  optdata_size, lwmp_hdr_size, lwmp_chunk_hdr_size, pdu_sync_hdr_mark, chunk_sync_hdr_mark, mt_msg,
  hdr_mark, msg_type, optional_data, total_msg_size, pdu_crc32, hdr_crc32, chunk_size,
  chunk_subject, chunk_payload,
}
use lwmsg.Session.Inbound.{c_string}
use lwmsg.Client.{
  ClientCtx, FileTransfer, Outside, emit, fopen, said, server_text, online_users, recv_buf_size,
}
use lwmsg.Client.Filename.{sanitize_filename, make_unique_filename}
use lwmsg.Client.Receive.{
  resp_ok, find_transfer, has_text, print_server_resp, handle_msg, handle_info, handle_req,
  cache_userlist, fclose_fp, end_transfer, end_existing, alloc_transfer, write_first,
  begin_transfer, begin_file, store_in, store_file, end_found, handle_file, process_received_pdu,
}
use lwmsg.Client.Parse.{wire_payload, process_chunk}

abbrev pub with_buf : List ℕ → ClientCtx → ClientCtx
with_buf b ctx = record ctx { recv_buf = b }

-- A whole PDU with a checksum that agrees, which is not an empty text message.
pub record IsPdu (f : List ℕ) : Type 0 where
  pub marked : hdr_mark f ≡ pdu_sync_hdr_mark
  pub intact : hdr_crc32 f ≡ pdu_crc32 f
  pub whole : length f ≡ lwmp_hdr_size + wire_payload f
  pub fits : length f ≤ recv_buf_size
  pub not_empty : (msg_type f ≢ mt_msg) ⊎ (0 < wire_payload f)

-- A whole chunk.
pub record IsChunk (f : List ℕ) : Type 0 where
  pub marked : hdr_mark f ≡ chunk_sync_hdr_mark
  pub whole : length f ≡ lwmp_chunk_hdr_size + chunk_size f

abbrev pub IsFrame : List ℕ → Type 0
IsFrame f = IsPdu f ⊎ IsChunk f

-- What the client makes of a message alone in its buffer.
abbrev pub receive_pdu : Outside → ClientCtx → List ℕ → ClientCtx
receive_pdu env ctx f = process_received_pdu env (with_buf f ctx) (wire_payload f)

abbrev pub receive_chunk : ClientCtx → List ℕ → ClientCtx
receive_chunk ctx f =
    if ltb 0 (chunk_size f)
    then process_chunk ctx (c_string (chunk_subject f)) (chunk_payload f (chunk_size f))
    else ctx

unfoldable pub receive : Outside → ClientCtx → List ℕ → ClientCtx
receive env ctx f =
    if hdr_mark f == pdu_sync_hdr_mark then receive_pdu env ctx f else receive_chunk ctx f

-- A string that ends before the end of `a`.
abbrev pub HasZero : List ℕ → Type 0
HasZero [] = ⊥
HasZero (b ∷ bytes) = (b ≡ 0) ⊎ HasZero bytes

c_string-append : (a rest : List ℕ) → HasZero a → c_string (a ++ rest) ≡ c_string a
unfolding c_string
c_string-append [] rest h = absurd h
c_string-append (b ∷ a) rest (inl e) = ground arith
c_string-append (b ∷ a) rest (inr h) = ground (arith, c_string-append a rest h)

set-HasZero : (a : List ℕ) (i : ℕ) → i < length a → HasZero (set a i 0)
set-HasZero [] i h = absurd (omega arith)
set-HasZero (b ∷ a) zero h = inl refl
set-HasZero (b ∷ a) (suc i) h = inr (set-HasZero a i (omega arith))

-- The text that a zero at `i` ends does not depend on what follows the message.
text-append :
    (f rest : List ℕ) (i : ℕ)
    → lwmp_hdr_size + i < length f
    → c_string (drop lwmp_hdr_size (set (f ++ rest) (lwmp_hdr_size + i) 0))
      ≡ c_string (drop lwmp_hdr_size (set f (lwmp_hdr_size + i) 0))
text-append f rest i h =
    let cut = drop-set lwmp_hdr_size f i 0 in
    ap (λ b. c_string (drop lwmp_hdr_size b)) (set-append f rest (lwmp_hdr_size + i) 0 h)
    ∙ ap c_string (
        drop-append lwmp_hdr_size (set f (lwmp_hdr_size + i) 0) rest
          (omega (arith, length-set f (lwmp_hdr_size + i) 0)))
    ∙ ap (λ b. c_string (b ++ rest)) cut
    ∙ c_string-append (set (drop lwmp_hdr_size f) i 0) rest
        (set-HasZero (drop lwmp_hdr_size f) i (omega (arith, length-drop lwmp_hdr_size f)))
    ∙ ap c_string (sym cut)

-- Two branches that differ in the buffer only.
pub if-with_buf :
    (r : List ℕ) (b : Bool) (x y x' y' : ClientCtx)
    → (b ≡ true → with_buf r x ≡ with_buf r x')
    → (b ≡ false → with_buf r y ≡ with_buf r y')
    → with_buf r (if b then x else y) ≡ with_buf r (if b then x' else y')
if-with_buf r true x y x' y' p q = p refl
if-with_buf r false x y x' y' p q = q refl

find_transfer-with_buf :
    (b : List ℕ) (ctx : ClientCtx) (sender : List ℕ)
    → find_transfer (with_buf b ctx) sender ≡ find_transfer ctx sender
unfolding find_transfer
find_transfer-with_buf b ctx sender = refl

pub fclose_fp-with_buf :
    (b : List ℕ) (ctx : ClientCtx) (fp : Option ℕ)
    → fclose_fp (with_buf b ctx) fp ≡ with_buf b (fclose_fp ctx fp)
fclose_fp-with_buf b ctx none = refl
fclose_fp-with_buf b ctx (some fp) = refl

end_found-with_buf :
    (b : List ℕ) (ctx : ClientCtx) (found : Option (ℕ × FileTransfer))
    → end_found found (with_buf b ctx) ≡ with_buf b (end_found found ctx)
unfolding end_found
end_found-with_buf b ctx none = refl
end_found-with_buf b ctx (some (i, ft)) =
    ap (λ c. end_transfer c i ft) (fclose_fp-with_buf b ctx ft.fp)

end_existing-with_buf :
    (b : List ℕ) (ctx : ClientCtx) (sender : List ℕ)
    → end_existing (with_buf b ctx) sender ≡ with_buf b (end_existing ctx sender)
unfolding end_existing
end_existing-with_buf b ctx sender = end_found-with_buf b ctx (find_transfer ctx sender)

write_first-with_buf :
    (b : List ℕ) (ctx : ClientCtx) (fp : ℕ) (payload : List ℕ)
    → write_first (with_buf b ctx) fp payload ≡ with_buf b (write_first ctx fp payload)
unfolding write_first
write_first-with_buf b ctx fp [] = refl
write_first-with_buf b ctx fp (x ∷ payload) = ground arith

begin_transfer-with_buf :
    (r b : List ℕ) (ctx : ClientCtx) (i : ℕ) (ft : FileTransfer) (fp : ℕ) (sender destname : List ℕ)
    (size n : ℕ)
    → with_buf r (begin_transfer (with_buf b ctx) i ft fp sender destname size n)
      ≡ with_buf r (begin_transfer ctx i ft fp sender destname size n)
unfolding begin_transfer
begin_transfer-with_buf r b ctx i ft fp sender destname size n =
    if-with_buf r (leb size n) _ _ _ _ (λ h. refl) (λ h. refl)

begin_file-with_buf :
    (r b : List ℕ) (ctx : ClientCtx) (i : ℕ) (ft : FileTransfer) (sender destname : List ℕ)
    (size : ℕ) (payload : List ℕ)
    → with_buf r (begin_file (with_buf b ctx) i ft sender destname size payload)
      ≡ with_buf r (begin_file ctx i ft sender destname size payload)
unfolding begin_file
begin_file-with_buf r b ctx i ft sender destname size payload =
    let opened = emit (record ctx { opened = ctx.opened + 1 }) (fopen ctx.opened destname) in
    ap (λ c. with_buf r (begin_transfer c i ft ctx.opened sender destname size (length payload)))
      (write_first-with_buf b opened ctx.opened payload)
    ∙ begin_transfer-with_buf r b (write_first opened ctx.opened payload) i ft ctx.opened sender
        destname size (length payload)

store_in-with_buf :
    (r b : List ℕ) (env : Outside) (ctx : ClientCtx) (sender filename : List ℕ) (size : ℕ)
    (payload : List ℕ) (slot : Option (ℕ × FileTransfer))
    → with_buf r (store_in env (with_buf b ctx) sender filename size payload slot)
      ≡ with_buf r (store_in env ctx sender filename size payload slot)
unfolding store_in
store_in-with_buf r b env ctx sender filename size payload none = refl
store_in-with_buf r b env ctx sender filename size payload (some (i, ft)) =
    let name = make_unique_filename (env.access ctx.events) filename (optdata_size + 1) in
    if-with_buf r (env.fopen_ok ctx.events name) _ _ _ _
      (λ h. begin_file-with_buf r b ctx i ft sender name size payload) (λ h. refl)

store_file-with_buf :
    (r b : List ℕ) (env : Outside) (ctx : ClientCtx) (sender filename : List ℕ) (size : ℕ)
    (payload : List ℕ)
    → with_buf r (store_file env (with_buf b ctx) sender filename size payload)
      ≡ with_buf r (store_file env ctx sender filename size payload)
unfolding store_file alloc_transfer
store_file-with_buf r b env ctx sender filename size payload =
    store_in-with_buf r b env ctx sender filename size payload (alloc_transfer ctx)

module _ (f rest : List ℕ) (ctx : ClientCtx) (w : ℕ) (whole : length f ≡ lwmp_hdr_size + w) where
  pub handle_msg-append :
      (sender r : List ℕ)
      → 0 < w
      → with_buf r (handle_msg (with_buf (f ++ rest) ctx) sender w)
        ≡ with_buf r (handle_msg (with_buf f ctx) sender w)
  unfolding handle_msg
  handle_msg-append sender r pos =
      ap (λ t. with_buf r (emit ctx (said sender t)))
        (text-append f rest (if has_text w then w - 1 else 0) (ground arith))

  print_server_resp-append :
      (code : ℕ) (r : List ℕ)
      → with_buf r (print_server_resp (with_buf (f ++ rest) ctx) w code)
        ≡ with_buf r (print_server_resp (with_buf f ctx) w code)
  unfolding print_server_resp
  print_server_resp-append code r =
      if-with_buf r (code == resp_ok) _ _ _ _ (λ ok. refl)
        (λ bad.
          if-with_buf r (has_text w) _ _ _ _
            (λ h.
              ap (λ t. with_buf r (emit ctx (server_text t code)))
                (text-append f rest (w - 1) (ground arith)))
            (λ h. refl))

  pub handle_info-append :
      (code : ℕ) (r : List ℕ)
      → with_buf r (handle_info (with_buf (f ++ rest) ctx) w code)
        ≡ with_buf r (handle_info (with_buf f ctx) w code)
  unfolding handle_info
  handle_info-append code r = ground (arith, print_server_resp-append code r)

  payload-append : take w (drop lwmp_hdr_size (f ++ rest)) ≡ take w (drop lwmp_hdr_size f)
  payload-append =
      ap (take w) (drop-append lwmp_hdr_size f rest (omega arith))
      ∙ take-append w (drop lwmp_hdr_size f) rest (omega (arith, length-drop lwmp_hdr_size f))

  pub handle_req-append :
      (code : ℕ) (r : List ℕ)
      → with_buf r (handle_req (with_buf (f ++ rest) ctx) w code)
        ≡ with_buf r (handle_req (with_buf f ctx) w code)
  unfolding handle_req cache_userlist
  handle_req-append code r =
      if-with_buf r (code == resp_ok && ltb 0 w) _ _ _ _
        (λ ok.
          ap
            (λ (p : List ℕ).
              with_buf r
                (emit (cache_userlist ctx p) (online_users (cache_userlist ctx p).user_cache)))
            payload-append)
        (λ bad. print_server_resp-append code r)

  pub handle_file-append :
      (env : Outside) (sender r : List ℕ)
      → with_buf r (handle_file env (with_buf (f ++ rest) ctx) sender w)
        ≡ with_buf r (handle_file env (with_buf f ctx) sender w)
  unfolding handle_file optional_data total_msg_size
  handle_file-append env sender r =
      let store = λ (c : ClientCtx) (opt : List ℕ) (size : ℕ) (payload : List ℕ).
        with_buf r (store_file env c sender (sanitize_filename (c_string opt)) size payload) in
      let ended = end_existing ctx sender in
      let opt = optional_data f in
      let name = sanitize_filename (c_string opt) in
      let size = total_msg_size f in
      let payload = take w (drop lwmp_hdr_size f) in
      let long = f ++ rest in
      ap
        (λ c. store c (optional_data long) (total_msg_size long) (take w (drop lwmp_hdr_size long)))
        (end_existing-with_buf long ctx sender)
      ∙ ap
          (λ o.
            store (with_buf long ended) o (total_msg_size long) (take w (drop lwmp_hdr_size long)))
          (slice-append f rest 37 32 (omega arith))
      ∙ ap
          (λ (o : List ℕ).
            store (with_buf long ended) opt (be_decode o) (take w (drop lwmp_hdr_size long)))
          (slice-append f rest 69 8 (omega arith))
      ∙ ap (store (with_buf long ended) opt size) payload-append
      ∙ store_file-with_buf r long env ended sender name size payload
      ∙ sym (store_file-with_buf r f env ended sender name size payload)
      ∙ ap (λ c. store c opt size payload) (sym (end_existing-with_buf f ctx sender))
