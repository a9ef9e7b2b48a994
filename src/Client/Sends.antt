-- ===== src/Client/Sends.antt =====
-- The command msg of client/clcmd.c puts the PDU of its text on the wire, whole, and the text of it
-- reaches the terminal of another client.
use mathlib.Core.List.{append_assoc, append-nil}
use lwmsg.Base.{
  ℕ, zero, suc, ◌+◌, ◌-◌, ◌≤◌, ◌<◌, ◌≡◌, ◌≢◌, ◌⊎◌, refl, sym, ap, subst, ◌∙◌, arith, Bool, true,
  false, Option, some, List, [], ◌∷◌, ◌++◌, length, take, drop, All, ltb, ◌==◌, if◌then◌else◌,
  length-take, length-drop, append-take-drop, ◌>>=◌, Returns,
}
use lwmsg.Netwrap.{Sent, send_error, send_block, sent}
use lwmsg.Lwmp.{lwmp_max_pdu_size, lwmp_pdu_buf_size, uname_size, lwmp_validate_hdrs, hv_ok}
use lwmsg.CmdParse.{cmdparse_tokenize, cmdparse_rest_after_tokens}
use lwmsg.Worker.Auth.{normalize_string}
use lwmsg.Session.Inbound.{Server}
use lwmsg.Client.{ClientCtx, Outside, said, emit}
use lwmsg.Client.Steps.{then_lem, else_lem}
use lwmsg.Client.Frame.{with_buf}
use lwmsg.Client.Stream.{concat}
use lwmsg.Client.Pieces.{feed}
use lwmsg.Client.Relayed.{IsName}
use lwmsg.Client.RelayedPdu.{pdu_bytes}
use lwmsg.Client.Command.{
  Wire, send_all, sent_text, MsgPrints, prints_nothing, msg_not_sent, send_text, msg_to, cmd_msg,
  input_line_max,
}
use lwmsg.Client.TextPdu.{length-sent}
use lwmsg.Client.Told.{recipient_of, text-Delivered}

-- send_fn takes a byte at least, and no more than there are.
abbrev pub TakesSome : (ℕ → List ℕ → Sent) → Type 0
TakesSome send_fn =
    (k : ℕ) (bytes : List ℕ)
    → 0 < length bytes
    → (n : ℕ) × (send_fn k bytes ≡ sent n) × (0 < n) × (n ≤ length bytes)

abbrev pub AllSent : Wire → List ℕ → Bool × Wire → Type 0
AllSent wire bytes (all, wire') = (all ≡ true) × (wire'.sent_bytes ≡ wire.sent_bytes ++ bytes)

send_all-AllSent :
    (fuel : ℕ) (send_fn : ℕ → List ℕ → Sent) (wire : Wire) (bytes : List ℕ)
    → TakesSome send_fn
    → length bytes < fuel
    → Returns (AllSent wire bytes) (send_all fuel send_fn wire bytes)
unfolding send_all
send_all-AllSent zero send_fn wire bytes takes h = absurd (omega arith)
send_all-AllSent (suc fuel) send_fn wire [] takes h =
    ((true, wire), refl, (refl, sym (append-nil wire.sent_bytes)))
send_all-AllSent (suc fuel) send_fn wire (b ∷ bytes) takes h =
    let (n, took, pos, le) = takes wire.send_calls (b ∷ bytes) (omega arith) in
    let called = record wire { send_calls = wire.send_calls + 1 } in
    let later = record called { sent_bytes = wire.sent_bytes ++ take n (b ∷ bytes) } in
    let ((all, wire'), run, (ok, out)) =
      send_all-AllSent fuel send_fn later (drop n (b ∷ bytes)) takes
        (omega (arith, length-drop n (b ∷ bytes))) in
    (
      (all, wire'),
      then_lem (ltb 0 (length (b ∷ bytes))) _ _ (ground arith)
          ∙ ap
              (λ r. elim r [
                | send_block ↦ send_all fuel send_fn called (b ∷ bytes)
                | send_error ↦ some (false, called)
                | sent k ↦
                    if ltb 0 k
                    then send_all fuel send_fn
                        (record called { sent_bytes = wire.sent_bytes ++ take k (b ∷ bytes) })
                        (drop k (b ∷ bytes))
                    else some (false, called)
              ])
              took
          ∙ then_lem (ltb 0 n) _ _ (ground arith)
          ∙ run,
      (
        ok,
        out
            ∙ append_assoc wire.sent_bytes (take n (b ∷ bytes)) (drop n (b ∷ bytes))
            ∙ ap (λ l. wire.sent_bytes ++ l) (append-take-drop n (b ∷ bytes)),
      ),
    )

-- cmd_msg printed nothing, and the bytes went out behind those before.
abbrev pub MsgSent : Wire → List ℕ → MsgPrints × Wire → Type 0
MsgSent wire bytes (printed, wire') =
    (printed ≡ prints_nothing) × (wire'.sent_bytes ≡ wire.sent_bytes ++ bytes)

all_sent :
    (wire : Wire) (bytes : List ℕ) (r : Option (Bool × Wire))
    → Returns (AllSent wire bytes) r
    → Returns
        (MsgSent wire bytes)
        (r >>= (λ (all, wire'). some (if all then prints_nothing else msg_not_sent, wire')))
all_sent wire bytes r ((all, wire'), run, (ok, out)) =
    subst
      (λ q.
        Returns (MsgSent wire bytes)
          (q >>= (λ (a, w). some (if a then prints_nothing else msg_not_sent, w))))
      (sym run) (_, refl, (then_lem all prints_nothing msg_not_sent ok, out))

not_zero : (n : ℕ) → 0 < n → (n == 0) ≡ false
not_zero n pos = ground arith

not_above : (n m : ℕ) → n < m → ltb m (n + 1) ≡ false
not_above n m h = ground arith

cmd_msg-MsgSent :
    (fuel : ℕ) (send_fn : ℕ → List ℕ → Sent) (ctx : ClientCtx) (wire : Wire)
    (line cmd recipient : List ℕ)
    → TakesSome send_fn
    → lwmp_max_pdu_size < fuel
    → ctx.connected ≡ true
    → cmdparse_tokenize (take (input_line_max - 1) line) 2 ≡ cmd ∷ recipient ∷ []
    → 0 < length (cmdparse_rest_after_tokens line 2)
    → length (cmdparse_rest_after_tokens line 2) < lwmp_pdu_buf_size
    → Returns
        (MsgSent wire (
          sent_text
            (normalize_string (take (uname_size - 1) recipient))
            (cmdparse_rest_after_tokens line 2)))
        (cmd_msg fuel send_fn ctx wire line)
unfolding cmd_msg msg_to send_text
cmd_msg-MsgSent fuel send_fn ctx wire line cmd recipient takes enough online toks full fits =
    let text = cmdparse_rest_after_tokens line 2 in
    let name = normalize_string (take (uname_size - 1) recipient) in
    let bytes = sent_text name text in
    let short : length bytes < fuel = omega (arith, length-sent name text fits) in
    subst (Returns (MsgSent wire bytes))
      (sym (
        then_lem ctx.connected _ _ online
        ∙ ap (λ t. msg_to fuel send_fn wire t text) toks
        ∙ else_lem (length text == 0) _ _ (not_zero (length text) full)
        ∙ else_lem (ltb lwmp_pdu_buf_size (length text + 1)) _ _
            (not_above (length text) lwmp_pdu_buf_size fits)))
      (all_sent wire bytes (send_all fuel send_fn wire bytes)
        (send_all-AllSent fuel send_fn wire bytes takes short))

length-normalize : (name : List ℕ) → length (normalize_string name) ≡ length name
unfolding normalize_string
length-normalize [] = refl
length-normalize (b ∷ name) = ap suc (length-normalize name)

short_name :
    (recipient : List ℕ) → length (normalize_string (take (uname_size - 1) recipient)) < uname_size
short_name recipient = omega (
  arith,
  length-normalize (take (uname_size - 1) recipient),
  length-take (uname_size - 1) recipient,
)

-- A msg command of a connected client, with a recipient and a text that fits a PDU, over a send_fn that
-- takes a byte at least, with a fuel above the size of a PDU: cmd_msg returns, prints nothing, and
-- has put the PDU of the text on the wire, whole. The server accepts the PDU for the recipient that it
-- reads in it where it knows the name of the command, which has no NUL, in lower case and cut to its
-- field, and no limit on files is below its size. As the server relays it for a sender whose name
-- fits its field, in any pieces, the client of the recipient, whose buffer is empty, shows the name
-- of the sender and the whole text, and nothing else of it changes.
pub cmd_msg-Delivered :
    (fuel : ℕ) (send_fn : ℕ → List ℕ → Sent) (ctx : ClientCtx) (wire : Wire)
    (line cmd recipient : List ℕ) (server : Server) (env : Outside) (other : ClientCtx)
    (pieces : List (List ℕ))
    → TakesSome send_fn
    → lwmp_max_pdu_size < fuel
    → ctx.connected ≡ true
    → cmdparse_tokenize (take (input_line_max - 1) line) 2 ≡ cmd ∷ recipient ∷ []
    → 0 < length (cmdparse_rest_after_tokens line 2)
    → length (cmdparse_rest_after_tokens line 2) < lwmp_pdu_buf_size
    → All (λ b. b ≢ 0) (cmdparse_rest_after_tokens line 2)
    → IsName server.username
    → All (λ b. b ≢ 0) (normalize_string (take (uname_size - 1) recipient))
    → server.hvfns.subj_valid_fn tt (normalize_string (take (uname_size - 1) recipient)) ≡ true
    → (server.hvfns.allow_file_transfers ≡ false)
      ⊎ (length (cmdparse_rest_after_tokens line 2) + 1 ≤ server.hvfns.max_filesize_b)
    → concat pieces
      ≡ pdu_bytes server (
          sent_text
            (normalize_string (take (uname_size - 1) recipient))
            (cmdparse_rest_after_tokens line 2))
    → Returns
        (MsgSent wire (
          sent_text
            (normalize_string (take (uname_size - 1) recipient))
            (cmdparse_rest_after_tokens line 2)))
        (cmd_msg fuel send_fn ctx wire line)
      × (lwmp_validate_hdrs
            (sent_text
              (normalize_string (take (uname_size - 1) recipient))
              (cmdparse_rest_after_tokens line 2))
            tt
            (recipient_of (
              sent_text
                (normalize_string (take (uname_size - 1) recipient))
                (cmdparse_rest_after_tokens line 2)))
            server.hvfns
          ≡ hv_ok)
      × (feed env (with_buf [] other) pieces
          ≡ some
              (with_buf [] (emit other (said server.username (cmdparse_rest_after_tokens line 2)))))
cmd_msg-Delivered fuel send_fn ctx wire line cmd recipient server env other pieces takes enough
      online toks full fits letters v named known limit cut =
    let (accepted, shown) =
      text-Delivered server env other (normalize_string (take (uname_size - 1) recipient))
        (cmdparse_rest_after_tokens line 2) pieces fits letters v named (short_name recipient) known
        limit cut in
    (
      cmd_msg-MsgSent fuel send_fn ctx wire line cmd recipient takes enough online toks full fits,
      accepted,
      shown,
    )
