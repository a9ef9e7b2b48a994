-- ===== src/Client/Rest.antt =====
-- What the handlers of client/clrecv.c leave of the bytes that follow a PDU in the buffer.
use lwmsg.Base.{
  ℕ, ◌+◌, ◌-◌, ◌<◌, ◌≡◌, ◌≢◌, ◌⊎◌, refl, ap, ◌∙◌, arith, Bool, true, false, ◌&&◌, Option, none,
  some, List, ◌++◌, ltb, leb, ◌==◌, length, take, drop, set, drop-append_self, set-append,
  length-set, if◌then◌else◌,
}
use lwmsg.Lwmp.{
  lwmp_hdr_size, optdata_size, mt_msg, mt_info, mt_req, mt_file, msg_type, req_type, subject_uname,
  optional_data, total_msg_size,
}
use lwmsg.Session.Inbound.{c_string}
use lwmsg.Client.{ClientCtx, FileTransfer, Outside}
use lwmsg.Client.Filename.{sanitize_filename, make_unique_filename}
use lwmsg.Client.Receive.{
  resp_ok, find_transfer, has_text, print_server_resp, handle_msg, handle_info, handle_req,
  cache_userlist, fclose_fp, end_found, end_existing, alloc_transfer, write_first, begin_transfer,
  begin_file, store_in, store_file, handle_file, process_received_pdu,
}
use lwmsg.Client.Frame.{with_buf}

pub if_lem {ℓ} :
    {A : Type 0} (P : A → Type ℓ) (b : Bool) {x y : A}
    → (b ≡ true → P x)
    → (b ≡ false → P y)
    → P (if b then x else y)
if_lem P true p q = p refl
if_lem P false p q = q refl

module _ (f rest : List ℕ) (w : ℕ) (whole : length f ≡ lwmp_hdr_size + w) where
  -- What follows the message is still there.
  abbrev Keeps : ClientCtx → Type 0
  Keeps c = drop (lwmp_hdr_size + w) c.recv_buf ≡ rest

  unchanged : drop (lwmp_hdr_size + w) (f ++ rest) ≡ rest
  unchanged = drop-append_self (lwmp_hdr_size + w) f rest whole

  ended : (i : ℕ) → i < w → drop (lwmp_hdr_size + w) (set (f ++ rest) (lwmp_hdr_size + i) 0) ≡ rest
  ended i h =
      ap (drop (lwmp_hdr_size + w)) (set-append f rest (lwmp_hdr_size + i) 0 (omega arith))
      ∙ drop-append_self (lwmp_hdr_size + w) (set f (lwmp_hdr_size + i) 0) rest
          (length-set f (lwmp_hdr_size + i) 0 ∙ whole)

  module _ (ctx : ClientCtx) where
    abbrev long : ClientCtx
    long = with_buf (f ++ rest) ctx

    handle_msg-Keeps : (sender : List ℕ) → 0 < w → Keeps (handle_msg long sender w)
    unfolding handle_msg
    handle_msg-Keeps sender pos = ended (if has_text w then w - 1 else 0) (ground arith)

    print_server_resp-Keeps : (code : ℕ) → Keeps (print_server_resp long w code)
    unfolding print_server_resp
    print_server_resp-Keeps code =
        if_lem Keeps (code == resp_ok) (λ ok. unchanged)
          (λ bad. if_lem Keeps (has_text w) (λ h. ended (w - 1) (ground arith)) (λ h. unchanged))

    handle_info-Keeps : (code : ℕ) → Keeps (handle_info long w code)
    unfolding handle_info
    handle_info-Keeps code = ground (arith, print_server_resp-Keeps code)

    handle_req-Keeps : (code : ℕ) → Keeps (handle_req long w code)
    unfolding handle_req cache_userlist
    handle_req-Keeps code =
        if_lem Keeps (code == resp_ok && ltb 0 w) (λ ok. unchanged)
          (λ bad. print_server_resp-Keeps code)

-- The buffer is not touched where a file is stored.
module _ (b : List ℕ) where
  abbrev Has : ClientCtx → Type 0
  Has c = c.recv_buf ≡ b

  fclose_fp-Has : (c : ClientCtx) (fp : Option ℕ) → Has c → Has (fclose_fp c fp)
  fclose_fp-Has c none h = h
  fclose_fp-Has c (some fp) h = h

  end_found-Has :
      (c : ClientCtx) (found : Option (ℕ × FileTransfer)) → Has c → Has (end_found found c)
  unfolding end_found
  end_found-Has c none h = h
  end_found-Has c (some (i, ft)) h = fclose_fp-Has c ft.fp h

  begin_file-Has :
      (c : ClientCtx) (i : ℕ) (ft : FileTransfer) (sender destname : List ℕ) (size : ℕ)
      (payload : List ℕ)
      → Has c
      → Has (begin_file c i ft sender destname size payload)
  unfolding begin_file begin_transfer write_first
  begin_file-Has c i ft sender destname size payload h =
      if_lem Has (leb size (length payload))
        (λ _. if_lem Has (ltb 0 (length payload)) (λ _. h) (λ _. h))
        (λ _. if_lem Has (ltb 0 (length payload)) (λ _. h) (λ _. h))

  store_in-Has :
      (env : Outside) (c : ClientCtx) (sender filename : List ℕ) (size : ℕ) (payload : List ℕ)
      (slot : Option (ℕ × FileTransfer))
      → Has c
      → Has (store_in env c sender filename size payload slot)
  unfolding store_in
  store_in-Has env c sender filename size payload none h = h
  store_in-Has env c sender filename size payload (some (i, ft)) h =
      let name = make_unique_filename (env.access c.events) filename (optdata_size + 1) in
      if_lem Has (env.fopen_ok c.events name)
        (λ _. begin_file-Has c i ft sender name size payload h) (λ _. h)

  pub handle_file-Has :
      (env : Outside) (c : ClientCtx) (sender : List ℕ) (w : ℕ)
      → Has c
      → Has (handle_file env c sender w)
  unfolding handle_file end_existing store_file
  handle_file-Has env c sender w h =
      let c' = end_existing c sender in
      store_in-Has env c' sender (sanitize_filename (c_string (optional_data c.recv_buf)))
        (total_msg_size c.recv_buf) (take w (drop lwmp_hdr_size c.recv_buf)) (alloc_transfer c')
        (end_found-Has c (find_transfer c sender) h)

-- The PDU is taken out of the buffer, and what follows it is as it was; a text message without a byte
-- is left out, for which the handler writes past the PDU.
pub process-rest :
    (f rest : List ℕ) (w : ℕ) (env : Outside) (ctx : ClientCtx)
    → length f ≡ lwmp_hdr_size + w
    → (msg_type (f ++ rest) ≢ mt_msg) ⊎ (0 < w)
    → drop (lwmp_hdr_size + w) (process_received_pdu env (with_buf (f ++ rest) ctx) w).recv_buf
      ≡ rest
unfolding process_received_pdu
process-rest f rest w env ctx whole full =
    let buf = f ++ rest in
    let c = with_buf buf ctx in
    let sender = c_string (subject_uname buf) in
    let type = msg_type buf in
    let code = req_type buf in
    let same = unchanged f rest w whole in
    if_lem (Keeps f rest w whole) (type == mt_msg)
      (λ e. handle_msg-Keeps f rest w whole ctx sender (ground (arith, full)))
      (λ _.
        if_lem (Keeps f rest w whole) (type == mt_info)
          (λ _. handle_info-Keeps f rest w whole ctx code)
          (λ _.
            if_lem (Keeps f rest w whole) (type == mt_req)
              (λ _. handle_req-Keeps f rest w whole ctx code)
              (λ _.
                if_lem (Keeps f rest w whole) (type == mt_file)
                  (λ _.
                    ap (drop (lwmp_hdr_size + w)) (handle_file-Has buf env c sender w refl) ∙ same)
                  (λ _. same))))
