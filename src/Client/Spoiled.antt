-- ===== src/Client/Spoiled.antt =====
-- A text message without a byte, as client/clrecv.c takes it: handle_msg of the model is the case MT_MSG
-- of process_received_pdu, which writes the closing zero at `pdu->buf[0]`.
use lwmsg.Base.{
  ℕ, ◌+◌, ◌≤◌, ◌≡◌, sym, ap, ◌∙◌, arith, true, some, List, [], ◌∷◌, ◌++◌, ◌==◌, ltb, length, set,
  drop, length-append, drop-append_self, drop-set,
}
use lwmsg.Base.Memory.{slice-append}
use lwmsg.Lwmp.{
  lwmp_hdr_size, pdu_sync_hdr_mark, mt_msg, hdr_mark, msg_type, subject_uname, hdr_crc32, pdu_crc32,
}
use lwmsg.Session.Inbound.{c_string}
use lwmsg.Client.{ClientCtx, Outside, said, emit}
use lwmsg.Client.Receive.{handle_msg, process_received_pdu}
use lwmsg.Client.Parse.{wire_payload, parse_step}
use lwmsg.Client.Frame.{with_buf}
use lwmsg.Client.Fields.{hdr_mark-append, crc-append, wire_payload-append, msg_type-append}
use lwmsg.Client.Steps.{then_lem, else_lem, parse_pdu-whole}

-- What is behind the header in the buffer, once the first byte of it is set to zero.
zeroed :
    (p rest : List ℕ) (b : ℕ)
    → length p ≡ lwmp_hdr_size
    → drop lwmp_hdr_size (set (p ++ b ∷ rest) (lwmp_hdr_size + 0) 0) ≡ 0 ∷ rest
zeroed p rest b len =
    drop-set lwmp_hdr_size (p ++ b ∷ rest) 0 0
    ∙ ap (λ l. set l 0 0) (drop-append_self lwmp_hdr_size p (b ∷ rest) len)

handle_msg-zeroed :
    (ctx : ClientCtx) (p rest sender : List ℕ) (b : ℕ)
    → length p ≡ lwmp_hdr_size
    → with_buf
        (drop lwmp_hdr_size (handle_msg (with_buf (p ++ b ∷ rest) ctx) sender 0).recv_buf)
        (handle_msg (with_buf (p ++ b ∷ rest) ctx) sender 0)
      ≡ with_buf (0 ∷ rest) (emit ctx (said sender []))
unfolding handle_msg c_string
handle_msg-zeroed ctx p rest sender b len =
    ap (λ l. with_buf l (emit ctx (said sender (c_string l)))) (zeroed p rest b len)

-- A text message without a byte is shown, but the first byte of the message that follows it in the
-- buffer is set to zero, so that its mark is no longer there.
pub parse_step-empty_text :
    (env : Outside) (ctx : ClientCtx) (p rest : List ℕ) (b : ℕ)
    → hdr_mark p ≡ pdu_sync_hdr_mark
    → hdr_crc32 p ≡ pdu_crc32 p
    → msg_type p ≡ mt_msg
    → length p ≡ lwmp_hdr_size
    → wire_payload p ≡ 0
    → parse_step env (with_buf (p ++ b ∷ rest) ctx)
      ≡ some (true, with_buf (0 ∷ rest) (emit ctx (said (c_string (subject_uname p)) [])))
unfolding parse_step process_received_pdu subject_uname
parse_step-empty_text env ctx p rest b mark intact text len empty =
    let le : lwmp_hdr_size ≤ length p = omega arith in
    let long = with_buf (p ++ b ∷ rest) ctx in
    let all = length-append p (b ∷ rest) in
    let (crc, crc') = crc-append p (b ∷ rest) le in
    let marked = hdr_mark-append p (b ∷ rest) (omega arith) in
    let type = msg_type-append p (b ∷ rest) (omega arith) in
    let name = slice-append p (b ∷ rest) 5 32 (omega arith) in
    else_lem (ltb (length (p ++ b ∷ rest)) 4) _ _ (ground (arith, all))
    ∙ then_lem (hdr_mark (p ++ b ∷ rest) == pdu_sync_hdr_mark) _ _ (ground (arith, marked))
    ∙ parse_pdu-whole env long 0 (omega (arith, all)) (omega arith) (crc ∙ intact ∙ sym crc')
        (wire_payload-append p (b ∷ rest) le ∙ empty)
    ∙ ap (λ c. some (true, with_buf (drop lwmp_hdr_size c.recv_buf) c))
        (then_lem (msg_type (p ++ b ∷ rest) == mt_msg) _ _ (ground (arith, type))
          ∙ ap (λ s. handle_msg long (c_string s) 0) name)
    ∙ ap (λ c. some (true, c)) (handle_msg-zeroed ctx p rest (c_string (subject_uname p)) b len)
