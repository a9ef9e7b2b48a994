-- ===== src/Client/Told.antt =====
-- A text from the command msg of client/clcmd.c, over the server, to the terminal of client/clrecv.c.
use mathlib.Core.List.{append-nil}
use lwmsg.Base.{
  ℕ, ◌+◌, ◌-◌, ◌≤◌, ◌<◌, ◌≡◌, ◌≢◌, ◌⊎◌, inl, inr, refl, sym, ap, ◌∙◌, arith, true, false, some,
  List, [], ◌∷◌, ◌++◌, length, take, drop, set, All, ◌==◌, if◌then◌else◌, length-drop, take_all,
  drop-set,
}
use lwmsg.Base.Memory.{slice}
use lwmsg.Lwmp.{
  lwmp_hdr_size, lwmp_pdu_buf_size, pdu_sync_hdr_mark, mt_msg, uname_size, hdr_mark, msg_type,
  subject_uname, lwmp_validate_hdrs, HdrValidationFns, hv_ok, hv_file_toobig,
}
use lwmsg.Lwmp.Validate.{validate-ok_iff, validate-text_file_toobig}
use lwmsg.Session.Inbound.{Server, c_string}
use lwmsg.Client.{ClientCtx, Outside, said, emit}
use lwmsg.Client.Receive.{handle_msg, has_text, process_received_pdu}
use lwmsg.Client.Parse.{wire_payload}
use lwmsg.Client.Frame.{with_buf, IsPdu, receive}
use lwmsg.Client.Steps.{then_lem}
use lwmsg.Client.Stream.{concat}
use lwmsg.Client.Pieces.{feed, feed-frames}
use lwmsg.Client.Relayed.{IsName, c_string-padded, c_string-recipient}
use lwmsg.Client.RelayedPdu.{
  pdu_bytes, length-pdu_bytes, pdu_mark, pdu_type, pdu_wire, pdu_first, pdu_from, pdu_intact,
}
use lwmsg.Client.Command.{sent_text}
use lwmsg.Client.TextPdu.{
  length-sent, sent-subject, sent-mark, sent-type, sent-size, sent-intact, sent-body, sent-wire,
}

-- The closing zero is there already.
set-closed : (text : List ℕ) → set (text ++ 0 ∷ []) (length text) 0 ≡ text ++ 0 ∷ []
set-closed [] = refl
set-closed (b ∷ text) = ap (◌∷◌ b) (set-closed text)

-- handle_msg of a PDU whose payload is the text and its closing zero.
handle_msg-text :
    (ctx : ClientCtx) (f sender text : List ℕ)
    → All (λ b. b ≢ 0) text
    → drop lwmp_hdr_size f ≡ text ++ 0 ∷ []
    → length text < lwmp_pdu_buf_size
    → with_buf [] (handle_msg (with_buf f ctx) sender (length text + 1))
      ≡ with_buf [] (emit ctx (said sender text))
unfolding handle_msg
handle_msg-text ctx f sender text letters payload fits =
    let n = length text + 1 in
    let last : (if has_text n then n - 1 else 0) ≡ length text = ground arith in
    ap (λ t. with_buf [] (emit ctx (said sender t)))
      (ap (λ i. c_string (drop lwmp_hdr_size (set f (lwmp_hdr_size + i) 0))) last
        ∙ ap c_string (
            drop-set lwmp_hdr_size f (length text) 0
            ∙ ap (λ l. set l (length text) 0) payload
            ∙ set-closed text)
        ∙ c_string-padded text 1 letters)

-- The recipient that the server reads in a PDU, as read_header keeps it and serve_pdu asks for.
abbrev pub recipient_of : List ℕ → List ℕ
recipient_of pdu = c_string (set (subject_uname pdu) (uname_size - 1) 0)

-- The text of a msg command that fits a PDU, to a recipient whose name fits its field, is in a PDU that
-- the server accepts where it knows that recipient and no limit on files is below its size; and as the server relays it, in any
-- pieces, the client of the recipient shows the name of the sender and the whole text, and nothing
-- else of it changes.
pub text-Delivered :
    (server : Server) (env : Outside) (ctx : ClientCtx) (recipient text : List ℕ)
    (pieces : List (List ℕ))
    → (fits : length text < lwmp_pdu_buf_size) → All (λ b. b ≢ 0) text
    → IsName server.username
    → All (λ b. b ≢ 0) recipient
    → length recipient < uname_size
    → server.hvfns.subj_valid_fn tt recipient ≡ true
    → (server.hvfns.allow_file_transfers ≡ false) ⊎ (length text + 1 ≤ server.hvfns.max_filesize_b)
    → concat pieces ≡ pdu_bytes server (sent_text recipient text)
    → (lwmp_validate_hdrs
          (sent_text recipient text)
          tt
          (recipient_of (sent_text recipient text))
          server.hvfns
        ≡ hv_ok)
      × (feed env (with_buf [] ctx) pieces
          ≡ some (with_buf [] (emit ctx (said server.username text))))
unfolding receive process_received_pdu slice
text-Delivered server env ctx recipient text pieces fits letters v named short known limit cut =
    let pdu = sent_text recipient text in
    let f = pdu_bytes server pdu in
    let mark = sent-mark recipient text fits in
    let type = sent-type recipient text fits in
    let size = sent-size recipient text fits in
    let found : recipient_of pdu ≡ recipient =
      ap (λ n. c_string (set n (uname_size - 1) 0)) (sent-subject recipient text fits)
      ∙ c_string-recipient recipient named short in
    let intact = sent-intact recipient text fits in
    let room : lwmp_hdr_size ≤ length pdu = omega (arith, length-sent recipient text fits) in
    let wire : wire_payload f ≡ length text + 1 =
      pdu_wire server pdu room ∙ sent-wire recipient text fits in
    let len : length f ≡ lwmp_hdr_size + (length text + 1) =
      length-pdu_bytes server pdu room ∙ length-sent recipient text fits in
    let f_type = pdu_type server pdu room ∙ type in
    let f_mark = pdu_mark server pdu room ∙ mark in
    let payload : drop lwmp_hdr_size f ≡ text ++ 0 ∷ [] =
      sym (
        take_all (wire_payload f) (drop lwmp_hdr_size f)
          (omega (arith, wire, len, length-drop lwmp_hdr_size f)))
      ∙ pdu_first server pdu room
      ∙ ap (λ n. take n (drop lwmp_hdr_size pdu)) (sent-wire recipient text fits)
      ∙ sent-body recipient text fits in
    let p : IsPdu f = record {
      marked = f_mark;
      intact = pdu_intact server pdu room;
      whole = omega (arith, len, wire);
      fits = omega (arith, len);
      not_empty = inr (omega (arith, wire));
    } in
    (
      (validate-ok_iff pdu tt (recipient_of pdu) server.hvfns).1 (record {
        marked = mark;
        intact = intact;
        known = inl type;
        file_allowed = inl (λ e. absurd (omega (arith, e, type)));
        within_limit = elim limit [ inl l ↦ inl l | inr r ↦ inr (omega (arith, size)) ];
        text_fits = inr (omega (arith, size));
        reachable = inr (ap (server.hvfns.subj_valid_fn tt) found ∙ known);
        served = inl (λ e. absurd (omega (arith, e, type)));
      }),
      feed-frames env ctx (f ∷ []) pieces (inl p, tt) (cut ∙ sym (append-nil f))
          ∙ ap (λ c. some (with_buf [] c))
              (then_lem (hdr_mark f == pdu_sync_hdr_mark) _ _ (ground (arith, f_mark))
                ∙ then_lem (msg_type f == mt_msg) _ _ (ground (arith, f_type))
                ∙ ap (λ n. handle_msg (with_buf f ctx) (c_string (subject_uname f)) n) wire
                ∙ ap (λ s. handle_msg (with_buf f ctx) s (length text + 1))
                    (pdu_from server pdu room v))
          ∙ ap some (handle_msg-text ctx f server.username text letters payload fits),
    )

-- The text of a msg command that fits a PDU, to any recipient, is in a PDU that a server that allows
-- files refuses with HV_FILE_TOOBIG, whoever the recipient is, if its limit on files is below the size
-- of the text and its closing zero.
pub text-refused :
    (recipient text subject : List ℕ) (c : Unit {0}) (h : HdrValidationFns (Unit {0}))
    → (fits : length text < lwmp_pdu_buf_size) → h.allow_file_transfers ≡ true
    → h.max_filesize_b < length text + 1
    → lwmp_validate_hdrs (sent_text recipient text) c subject h ≡ hv_file_toobig
text-refused recipient text subject c h fits allowed small =
    validate-text_file_toobig (sent_text recipient text) c subject h (sent-mark recipient text fits)
      (sent-intact recipient text fits) (sent-type recipient text fits) allowed
      (omega (arith, sent-size recipient text fits)) (omega (arith, sent-size recipient text fits))
