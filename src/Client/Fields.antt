-- ===== src/Client/Fields.antt =====
-- What client/clrecv.c reads of a message does not depend on what follows it in the buffer.
use lwmsg.Base.{
  ℕ, ◌+◌, ◌≤◌, ◌<◌, ◌≡◌, ◌≢◌, ◌⊎◌, refl, ap, ◌∙◌, arith, ◌&&◌, List, ◌++◌, ltb, ◌==◌, if◌then◌else◌,
  length,
}
use lwmsg.Base.Memory.{be_decode, slice-append}
use lwmsg.Lwmp.{
  lwmp_hdr_size, mt_msg, mt_info, mt_req, mt_file, hdr_mark, msg_type, subject_uname, req_type,
  total_msg_size, pdu_crc32, hdr_crc32,
}
use lwmsg.Lwmp.Crc.{crc32}
use lwmsg.Session.Inbound.{c_string}
use lwmsg.Client.{ClientCtx, Outside, emit, unknown_type}
use lwmsg.Client.Receive.{handle_msg, handle_info, handle_req, handle_file, process_received_pdu}
use lwmsg.Client.Parse.{wire_payload}
use lwmsg.Client.Frame.{
  with_buf, if-with_buf, handle_msg-append, handle_info-append, handle_req-append,
  handle_file-append,
}

-- The fields of a message do not depend on what follows it.
module _ (f rest : List ℕ) where
  pub msg_type-append : 5 ≤ length f → msg_type (f ++ rest) ≡ msg_type f
  unfolding msg_type
  msg_type-append h = ap be_decode (slice-append f rest 4 1 (omega arith))

  pub hdr_mark-append : 4 ≤ length f → hdr_mark (f ++ rest) ≡ hdr_mark f
  unfolding hdr_mark
  hdr_mark-append h = ap be_decode (slice-append f rest 0 4 (omega arith))

  pub crc-append :
      81 ≤ length f → (hdr_crc32 (f ++ rest) ≡ hdr_crc32 f) × (pdu_crc32 (f ++ rest) ≡ pdu_crc32 f)
  unfolding hdr_crc32 pdu_crc32
  crc-append h = (
    ap crc32 (slice-append f rest 0 77 (omega arith)),
    ap be_decode (slice-append f rest 77 4 (omega arith)),
  )

  pub wire_payload-append : 81 ≤ length f → wire_payload (f ++ rest) ≡ wire_payload f
  unfolding wire_payload total_msg_size
  wire_payload-append h =
      ap
        (λ (t : ℕ).
          if t == mt_file && ltb 4015 (total_msg_size (f ++ rest))
          then 4015
          else total_msg_size (f ++ rest))
        (msg_type-append (omega arith))
      ∙ ap
          (λ (s : List ℕ).
            if msg_type f == mt_file && ltb 4015 (be_decode s) then 4015 else be_decode s)
          (slice-append f rest 69 8 (omega arith))

  pub process-append :
      (env : Outside) (ctx : ClientCtx) (r : List ℕ) (w : ℕ)
      → length f ≡ lwmp_hdr_size + w
      → (msg_type f ≢ mt_msg) ⊎ (0 < w)
      → with_buf r (process_received_pdu env (with_buf (f ++ rest) ctx) w)
        ≡ with_buf r (process_received_pdu env (with_buf f ctx) w)
  unfolding process_received_pdu subject_uname req_type
  process-append env ctx r w whole full =
      let go = λ (sender : List ℕ) (type code : ℕ) (b : List ℕ). with_buf r (
        let c = with_buf b ctx in
        if type == mt_msg
        then handle_msg c sender w
        else if type == mt_info
        then handle_info c w code
        else if type == mt_req
        then handle_req c w code
        else if type == mt_file
        then handle_file env c sender w
        else emit c (unknown_type type)) in
      let sender = c_string (subject_uname f) in
      let type = msg_type f in
      let code = req_type f in
      ap (λ s. go (c_string s) (msg_type (f ++ rest)) (req_type (f ++ rest)) (f ++ rest))
        (slice-append f rest 5 32 (omega arith))
      ∙ ap (λ t. go sender t (req_type (f ++ rest)) (f ++ rest)) (msg_type-append (omega arith))
      ∙ ap (λ c. go sender type (be_decode c) (f ++ rest)) (slice-append f rest 37 4 (omega arith))
      ∙ if-with_buf r (type == mt_msg) _ _ _ _
          (λ e. handle_msg-append f rest ctx w whole sender r (ground (arith, full)))
          (λ _.
            if-with_buf r (type == mt_info) _ _ _ _
              (λ _. handle_info-append f rest ctx w whole code r)
              (λ _.
                if-with_buf r (type == mt_req) _ _ _ _
                  (λ _. handle_req-append f rest ctx w whole code r)
                  (λ _.
                    if-with_buf r (type == mt_file) _ _ _ _
                      (λ _. handle_file-append f rest ctx w whole env sender r) (λ _. refl))))
