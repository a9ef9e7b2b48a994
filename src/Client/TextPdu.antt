-- ===== src/Client/TextPdu.antt =====
-- The PDU that cmd_msg of client/clcmd.c builds and sends reads back as what it was built of.
use lwmsg.Base.{
  ℕ, ◌+◌, ◌-◌, ◌≤◌, ◌<◌, ◌≡◌, refl, sym, ap, ◌∙◌, arith, ◌&&◌, List, [], ◌∷◌, ◌++◌, length, take,
  replicate, ltb, ◌==◌, length-take, length-append, length-replicate,
}
use lwmsg.Base.Memory.{
  write, slice, be_decode, be32, be64, length-write, slice-write_self, slice-write_before,
  slice-write_after, slice-take, be_decode-be32, be_decode-be64, be_decode-byte, length-be32,
  length-be64,
}
use lwmsg.Lwmp.{
  lwmp_max_pdu_size, lwmp_hdr_size, lwmp_pdu_buf_size, uname_size, pdu_sync_hdr_mark, mt_msg,
  mt_file, hdr_mark, msg_type, total_msg_size, pdu_crc32, hdr_crc32, strncpy, subject_uname,
  write_crc32,
}
use lwmsg.Lwmp.Crc.{crc32}
use lwmsg.Lwmp.Response.{hdr_crc32-lt}
use lwmsg.Client.Parse.{wire_payload}
use lwmsg.Client.Steps.{else_lem}
use lwmsg.Client.Command.{text_pdu, sent_text}

module _ (recipient text : List ℕ) (fits : length text < lwmp_pdu_buf_size) where
  abbrev body : List ℕ
  body = text ++ 0 ∷ []

  abbrev w₀ : List ℕ
  w₀ = replicate lwmp_max_pdu_size 0

  abbrev w₁ : List ℕ
  w₁ = write w₀ 0 (be32 pdu_sync_hdr_mark)

  abbrev w₂ : List ℕ
  w₂ = write w₁ 4 (mt_msg ∷ [])

  abbrev w₃ : List ℕ
  w₃ = write w₂ 5 (strncpy recipient uname_size)

  abbrev w₄ : List ℕ
  w₄ = write w₃ 69 (be64 (length text + 1))

  abbrev w₅ : List ℕ
  w₅ = write w₄ 81 body

  abbrev w₆ : List ℕ
  w₆ = write w₅ 77 (be32 (hdr_crc32 w₅))

  length-body : length body ≡ length text + 1
  length-body = length-append text (0 ∷ [])

  length-w₂ : length w₂ ≡ lwmp_max_pdu_size
  length-w₂ =
      length-write w₁ 4 (mt_msg ∷ [])
      ∙ length-write w₀ 0 (be32 pdu_sync_hdr_mark)
      ∙ length-replicate {A = ℕ} lwmp_max_pdu_size 0

  length-w₃ : length w₃ ≡ lwmp_max_pdu_size
  length-w₃ = length-write w₂ 5 (strncpy recipient uname_size) ∙ length-w₂

  length-w₅ : length w₅ ≡ lwmp_max_pdu_size
  length-w₅ = length-write w₄ 81 body ∙ length-write w₃ 69 (be64 (length text + 1)) ∙ length-w₃

  length-w₆ : length w₆ ≡ lwmp_max_pdu_size
  length-w₆ = length-write w₅ 77 (be32 (hdr_crc32 w₅)) ∙ length-w₅

  -- The first fields are not touched by the later writes.
  early : (o n : ℕ) → o + n ≤ 5 → slice w₆ o n ≡ slice w₂ o n
  early o n h =
      slice-write_before w₅ 77 (be32 (hdr_crc32 w₅)) o n (omega arith)
      ∙ slice-write_before w₄ 81 body o n (omega arith)
      ∙ slice-write_before w₃ 69 (be64 (length text + 1)) o n (omega arith)
      ∙ slice-write_before w₂ 5 (strncpy recipient uname_size) o n h

  abbrev sent : List ℕ
  sent = sent_text recipient text

  pub length-sent : length sent ≡ lwmp_hdr_size + (length text + 1)
  unfolding text_pdu write_crc32
  length-sent = omega (arith, length-take (lwmp_hdr_size + (length text + 1)) w₆, length-w₆)

  sent-slice : (o n : ℕ) → o + n ≤ lwmp_hdr_size + (length text + 1) → slice sent o n ≡ slice w₆ o n
  unfolding text_pdu write_crc32
  sent-slice o n h =
      slice-take w₆ (lwmp_hdr_size + (length text + 1)) o n h (omega (arith, length-w₆))

  pub sent-mark : hdr_mark sent ≡ pdu_sync_hdr_mark
  unfolding hdr_mark
  sent-mark =
      ap be_decode (
        sent-slice 0 4 (omega arith)
        ∙ early 0 4 (omega arith)
        ∙ slice-write_before w₁ 4 (mt_msg ∷ []) 0 4 (omega arith)
        ∙ slice-write_self w₀ 0 (be32 pdu_sync_hdr_mark) 4 (length-be32 pdu_sync_hdr_mark)
            (omega (arith, length-replicate {A = ℕ} lwmp_max_pdu_size 0)))
      ∙ be_decode-be32 pdu_sync_hdr_mark (omega arith)

  pub sent-type : msg_type sent ≡ mt_msg
  unfolding msg_type
  sent-type =
      ap be_decode (
        sent-slice 4 1 (omega arith)
        ∙ early 4 1 (omega arith)
        ∙ slice-write_self w₁ 4 (mt_msg ∷ []) 1 refl
            (omega (arith, length-w₂, length-write w₁ 4 (mt_msg ∷ []))))
      ∙ be_decode-byte mt_msg

  length-strncpy : length (strncpy recipient uname_size) ≡ uname_size
  unfolding strncpy
  length-strncpy = omega (
    arith,
    length-append (take uname_size recipient) (replicate (uname_size - length recipient) 0),
    length-take uname_size recipient,
    length-replicate {A = ℕ} (uname_size - length recipient) 0,
  )

  pub sent-subject : subject_uname sent ≡ strncpy recipient uname_size
  unfolding subject_uname
  sent-subject =
      sent-slice 5 uname_size (omega arith)
      ∙ slice-write_before w₅ 77 (be32 (hdr_crc32 w₅)) 5 uname_size (omega arith)
      ∙ slice-write_before w₄ 81 body 5 uname_size (omega arith)
      ∙ slice-write_before w₃ 69 (be64 (length text + 1)) 5 uname_size (omega arith)
      ∙ slice-write_self w₂ 5 (strncpy recipient uname_size) uname_size length-strncpy
          (omega (arith, length-w₂))

  pub sent-size : total_msg_size sent ≡ length text + 1
  unfolding total_msg_size
  sent-size =
      ap be_decode (
        sent-slice 69 8 (omega arith)
        ∙ slice-write_before w₅ 77 (be32 (hdr_crc32 w₅)) 69 8 (omega arith)
        ∙ slice-write_before w₄ 81 body 69 8 (omega arith)
        ∙ slice-write_self w₃ 69 (be64 (length text + 1)) 8 (length-be64 (length text + 1))
            (omega (arith, length-w₃)))
      ∙ be_decode-be64 (length text + 1) (omega arith)

  pub sent-intact : hdr_crc32 sent ≡ pdu_crc32 sent
  unfolding hdr_crc32 pdu_crc32
  sent-intact =
      ap crc32 (
        sent-slice 0 77 (omega arith)
        ∙ slice-write_before w₅ 77 (be32 (hdr_crc32 w₅)) 0 77 (omega arith))
      ∙ sym (be_decode-be32 (hdr_crc32 w₅) (hdr_crc32-lt w₅))
      ∙ ap be_decode (
          sym (
            sent-slice 77 4 (omega arith)
            ∙ slice-write_self w₅ 77 (be32 (hdr_crc32 w₅)) 4 (length-be32 (hdr_crc32 w₅))
                (omega (arith, length-w₅))))

  pub sent-body : slice sent 81 (length text + 1) ≡ body
  sent-body =
      sent-slice 81 (length text + 1) (omega arith)
      ∙ slice-write_after w₅ 77 (be32 (hdr_crc32 w₅)) 81 (length text + 1)
          (omega (arith, length-be32 (hdr_crc32 w₅)))
      ∙ slice-write_self w₄ 81 body (length text + 1) length-body
          (omega (arith, length-w₅, length-write w₄ 81 body))

  pub sent-wire : wire_payload sent ≡ length text + 1
  unfolding wire_payload
  sent-wire =
      else_lem (msg_type sent == mt_file && ltb lwmp_pdu_buf_size (total_msg_size sent)) _ _
        (ground (arith, sent-type))
      ∙ sent-size
