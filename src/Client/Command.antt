-- ===== src/Client/Command.antt =====
-- client/clcmd.c: the command msg, and send_all of client/clnet.c. A line and a token are the lists of
-- their characters before the NUL.
use lwmsg.Base.{
  ℕ, zero, suc, ◌+◌, ◌-◌, Bool, true, false, Option, none, some, List, [], ◌∷◌, ◌++◌, ltb, ◌==◌,
  if◌then◌else◌, length, take, drop, replicate, ◌>>=◌,
}
use lwmsg.Base.Memory.{write, be32, be64}
use lwmsg.Netwrap.{Sent, send_error, send_block, sent}
use lwmsg.Lwmp.{
  lwmp_max_pdu_size, lwmp_hdr_size, lwmp_pdu_buf_size, uname_size, pdu_sync_hdr_mark, mt_msg,
  strncpy, write_crc32,
}
use lwmsg.CmdParse.{cmdparse_tokenize, cmdparse_rest_after_tokens}
use lwmsg.Worker.Auth.{normalize_string}
use lwmsg.Client.{ClientCtx}

abbrev pub input_line_max : ℕ
input_line_max = 4096

-- The calls of send_fn so far, and the bytes that they took.
pub record Wire : Type 0 where
  pub send_calls : ℕ
  pub sent_bytes : List ℕ

-- The loop over the bytes that are left; the answer is false for -1. `none` is a spent fuel, as the loop
-- calls again for as long as send_fn blocks.
unfoldable pub send_all : ℕ → (ℕ → List ℕ → Sent) → Wire → List ℕ → Option (Bool × Wire)
send_all zero send_fn wire bytes = none
send_all (suc fuel) send_fn wire bytes =
    let called = record wire { send_calls = wire.send_calls + 1 } in
    let round : Option (Bool × Wire) = elim (send_fn wire.send_calls bytes) [
      | send_block ↦ send_all fuel send_fn called bytes
      | send_error ↦ some (false, called)
      | sent n ↦
          let rest =
            send_all fuel send_fn (record called { sent_bytes = wire.sent_bytes ++ take n bytes })
              (drop n bytes) in
          if ltb 0 n then rest else some (false, called)
    ] in
    if ltb 0 (length bytes) then round else some (true, wire)

-- The PDU of a text, and the bytes of it that are sent.
unfoldable pub text_pdu : List ℕ → List ℕ → List ℕ
text_pdu recipient text =
    let marked = write (replicate lwmp_max_pdu_size 0) 0 (be32 pdu_sync_hdr_mark) in
    let typed = write marked 4 (mt_msg ∷ []) in
    let named = write typed 5 (strncpy recipient uname_size) in
    let sized = write named 69 (be64 (length text + 1)) in
    write_crc32 (write sized 81 (text ++ 0 ∷ []))

abbrev pub sent_text : List ℕ → List ℕ → List ℕ
sent_text recipient text = take (lwmp_hdr_size + (length text + 1)) (text_pdu recipient text)

-- What cmd_msg prints, if anything.
pub data MsgPrints : Type 0 where
  not_connected msg_usage msg_too_long msg_not_sent prints_nothing : MsgPrints

unfoldable pub send_text :
    ℕ → (ℕ → List ℕ → Sent) → Wire → List ℕ → List ℕ → Option (MsgPrints × Wire)
unfolding send_all text_pdu
send_text fuel send_fn wire recipient text =
    if length text == 0
    then some (msg_usage, wire)
    else if ltb lwmp_pdu_buf_size (length text + 1)
    then some (msg_too_long, wire)
    else send_all fuel send_fn wire (sent_text recipient text)
      >>= (λ (all, wire'). some (if all then prints_nothing else msg_not_sent, wire'))

unfoldable pub msg_to :
    ℕ → (ℕ → List ℕ → Sent) → Wire → List (List ℕ) → List ℕ → Option (MsgPrints × Wire)
unfolding send_text normalize_string
msg_to fuel send_fn wire (cmd ∷ recipient ∷ toks) text =
    send_text fuel send_fn wire (normalize_string (take (uname_size - 1) recipient)) text
msg_to fuel send_fn wire _ text = some (msg_usage, wire)

unfoldable pub cmd_msg :
    ℕ → (ℕ → List ℕ → Sent) → ClientCtx → Wire → List ℕ → Option (MsgPrints × Wire)
unfolding msg_to cmdparse_tokenize cmdparse_rest_after_tokens
cmd_msg fuel send_fn ctx wire orig_line =
    let told =
      msg_to fuel send_fn wire (cmdparse_tokenize (take (input_line_max - 1) orig_line) 2)
        (cmdparse_rest_after_tokens orig_line 2) in
    if ctx.connected then told else some (not_connected, wire)
