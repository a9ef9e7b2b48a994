-- ===== src/Lwmp/Response.antt =====
-- lwmp_prepare_response: the PDU that it builds reads back as what it was given.
use lwmsg.Base.{
  false, ℕ, ◌+◌, ◌-◌, ◌^◌, ◌≤◌, ◌<◌, ◌≡◌, refl, sym, ap, ◌∙◌, ◌⊎◌, Option, none, some, List, [],
  ◌∷◌, ◌++◌, arith, length, take, replicate, length-append, length-take, length-replicate, ltb,
}
use lwmsg.Base.Memory.{
  write, slice, be_decode, be32, be64, length-write, slice-write_self, slice-write_before,
  slice-write_after, be_decode-be32, be_decode-be64, length-be32, length-be64, be_decode-byte,
  write-write, write-nil,
}
use lwmsg.Lwmp.{
  lwmp_prepare_response, write_start, write_optdata, write_text, write_crc32, text_len, hdr_mark,
  msg_type, subject_uname, optional_data, total_msg_size, pdu_crc32, hdr_crc32, pdu_sync_hdr_mark,
  lwmp_hdr_size, lwmp_pdu_buf_size, optdata_size, uname_size,
}
use lwmsg.Lwmp.Crc.{crc32}
use lwmsg.Lwmp.Crc.Bounds.{crc32-lt}

-- What `optional_data` is to hold: the data, and zeros behind it.
unfoldable pub padded : Option (List ℕ) → ℕ → List ℕ
padded (some optdata) len = take len optdata ++ replicate (optdata_size - len) 0
padded none len = replicate optdata_size 0

-- The size of the text in the message, its closing zero counted.
unfoldable pub text_size : Option (List ℕ) → ℕ
text_size (some text) = text_len text + 1
text_size none = 0

-- What a message is to carry after the header.
unfoldable pub text_bytes : Option (List ℕ) → List ℕ
text_bytes (some text) = take (text_len text) text ++ 0 ∷ []
text_bytes none = []

-- The caller's data has the bytes that are copied.
abbrev pub Given : Option (List ℕ) → ℕ → Type 0
Given (some optdata) len = len ≤ length optdata
Given none len = Unit {0}

length-padded :
    (d : Option (List ℕ)) (len : ℕ) → len ≤ 32 → Given d len → length (padded d len) ≡ 32
unfolding padded
length-padded none len h g = length-replicate {A = ℕ} 32 0
length-padded (some d) len h g = omega (
  arith,
  length-append (take len d) (replicate (optdata_size - len) 0),
  length-take len d,
  length-replicate {A = ℕ} (optdata_size - len) 0,
)

write_optdata-eq :
    (m : List ℕ) (d : Option (List ℕ)) (len : ℕ)
    → Given d len
    → write_optdata m d len ≡ write m 37 (padded d len)
unfolding write_optdata padded
write_optdata-eq m none len g = refl
write_optdata-eq m (some d) len g =
    write-write m 37 (37 + len) (take len d) (replicate (optdata_size - len) 0)
      (omega (arith, length-take len d))

text_len-le : (t : List ℕ) → text_len t ≤ length t
unfolding text_len
text_len-le t = ground arith

length-cut : (t : List ℕ) → length (take (text_len t) t) ≡ text_len t
length-cut t = omega (arith, length-take (text_len t) t, text_len-le t)

write_text-eq :
    (m : List ℕ) (t : Option (List ℕ))
    → write_text m t ≡ write (write m 81 (text_bytes t)) 69 (be64 (text_size t))
unfolding write_text text_bytes text_size be64
write_text-eq m none = ap (λ z. write z 69 (be64 0)) (sym (write-nil m 81))
write_text-eq m (some t) =
    ap (λ z. write z 69 (be64 (text_len t + 1)))
      (write-write m 81 (81 + text_len t) (take (text_len t) t) (0 ∷ [])
        (omega (arith, length-cut t)))

pub hdr_crc32-lt : (pdu : List ℕ) → hdr_crc32 pdu < 2 ^ 32
unfolding hdr_crc32
hdr_crc32-lt pdu = crc32-lt (slice pdu 0 77)

hdr_crc32-before : (m bs : List ℕ) → hdr_crc32 (write m 77 bs) ≡ hdr_crc32 m
unfolding hdr_crc32
hdr_crc32-before m bs = ap crc32 (slice-write_before m 77 bs 0 77 (omega arith))

-- What a receiver reads in a PDU.
pub record Reads (pdu : List ℕ) (type : ℕ) (opt : List ℕ) (size : ℕ) (body : List ℕ) : Type 0 where
  pub marked : hdr_mark pdu ≡ pdu_sync_hdr_mark
  pub typed : msg_type pdu ≡ type
  pub no_subject : subject_uname pdu ≡ replicate uname_size 0
  pub optional : optional_data pdu ≡ opt
  pub sized : total_msg_size pdu ≡ size
  pub carries : slice pdu 81 (length body) ≡ body
  pub intact : pdu_crc32 pdu ≡ hdr_crc32 pdu

-- The buffer after the writes, in their order.
module _ (m : List ℕ) (type : ℕ) (opt : List ℕ) (size : ℕ) (body : List ℕ) where
  abbrev w₁ : List ℕ
  w₁ = write m 5 (replicate uname_size 0)

  abbrev w₂ : List ℕ
  w₂ = write w₁ 4 (type ∷ [])

  abbrev w₃ : List ℕ
  w₃ = write w₂ 0 (be32 pdu_sync_hdr_mark)

  abbrev w₄ : List ℕ
  w₄ = write w₃ 37 opt

  abbrev w₅ : List ℕ
  w₅ = write w₄ 81 body

  abbrev w₆ : List ℕ
  w₆ = write w₅ 69 (be64 size)

  abbrev w₇ : List ℕ
  w₇ = write w₆ 77 (be32 (hdr_crc32 w₆))

  module _ (room : 81 + length body ≤ length m) (opt_full : length opt ≡ 32) where
    -- The last writes leave the first 69 bytes alone but for the optional data.
    late : (o n : ℕ) → (o + n ≤ 37) ⊎ ((37 ≤ o) × (o + n ≤ 69)) → slice w₇ o n ≡ slice w₄ o n
    late o n at =
        slice-write_before w₆ 77 (be32 (hdr_crc32 w₆)) o n (omega arith)
        ∙ slice-write_before w₅ 69 (be64 size) o n (omega arith)
        ∙ slice-write_before w₄ 81 body o n (omega arith)

    length-w₁ : length w₁ ≡ length m
    length-w₁ = length-write m 5 (replicate uname_size 0)

    length-w₃ : length w₃ ≡ length m
    length-w₃ =
        length-write w₂ 0 (be32 pdu_sync_hdr_mark)
        ∙ length-write w₁ 4 (type ∷ [])
        ∙ length-write m 5 (replicate uname_size 0)

    length-w₆ : length w₆ ≡ length m
    length-w₆ =
        length-write w₅ 69 (be64 size)
        ∙ length-write w₄ 81 body
        ∙ length-write w₃ 37 opt
        ∙ length-w₃

    w₇-Reads : size < 2 ^ 64 → Reads w₇ type opt size body
    unfolding hdr_mark msg_type subject_uname optional_data total_msg_size pdu_crc32
    w₇-Reads fits =
        let mark = be32 pdu_sync_hdr_mark in
        let none_yet = length-replicate {A = ℕ} uname_size 0 in
        let sum = be32 (hdr_crc32 w₆) in
        record {
          marked =
              ap be_decode (
                late 0 4 (omega arith)
                ∙ slice-write_before w₃ 37 opt 0 4 (omega arith)
                ∙ slice-write_self w₂ 0 mark 4 (length-be32 pdu_sync_hdr_mark)
                    (omega (arith, length-w₃, length-write w₂ 0 mark)))
              ∙ be_decode-be32 pdu_sync_hdr_mark (omega arith);
          typed =
              ap be_decode (
                late 4 1 (omega arith)
                ∙ slice-write_before w₃ 37 opt 4 1 (omega arith)
                ∙ slice-write_after w₂ 0 mark 4 1 (omega (arith, length-be32 pdu_sync_hdr_mark))
                ∙ slice-write_self w₁ 4 (type ∷ []) 1 refl (omega (arith, length-w₁)))
              ∙ be_decode-byte type;
          no_subject =
              late 5 32 (omega arith)
              ∙ slice-write_before w₃ 37 opt 5 32 (omega arith)
              ∙ slice-write_after w₂ 0 mark 5 32 (omega (arith, length-be32 pdu_sync_hdr_mark))
              ∙ slice-write_after w₁ 4 (type ∷ []) 5 32 (omega arith)
              ∙ slice-write_self m 5 (replicate uname_size 0) 32 none_yet (omega arith);
          optional =
              late 37 32 (omega arith)
              ∙ slice-write_self w₃ 37 opt 32 opt_full (omega (arith, length-w₃));
          sized =
              ap be_decode (
                slice-write_before w₆ 77 sum 69 8 (omega arith)
                ∙ slice-write_self w₅ 69 (be64 size) 8 (length-be64 size)
                    (omega (arith, length-w₆, length-write w₅ 69 (be64 size))))
              ∙ be_decode-be64 size fits;
          carries =
              slice-write_after w₆ 77 sum 81 (length body)
                (omega (arith, length-be32 (hdr_crc32 w₆)))
              ∙ slice-write_after w₅ 69 (be64 size) 81 (length body)
                  (omega (arith, length-be64 size))
              ∙ slice-write_self w₄ 81 body (length body) refl
                  (omega (arith, length-w₃, length-write w₃ 37 opt));
          intact =
              ap be_decode (
                slice-write_self w₆ 77 sum 4 (length-be32 (hdr_crc32 w₆))
                  (omega (arith, length-w₆)))
              ∙ be_decode-be32 (hdr_crc32 w₆) (hdr_crc32-lt w₆)
              ∙ sym (hdr_crc32-before w₆ sum);
        }

length-text_bytes : (t : Option (List ℕ)) → length (text_bytes t) ≡ text_size t
unfolding text_bytes text_size
length-text_bytes none = refl
length-text_bytes (some t) =
    omega (arith, length-append (take (text_len t) t) (0 ∷ []), length-cut t)

-- The text that is carried, cut where it must be, always fits the buffer of a PDU.
pub text_size-le : (t : Option (List ℕ)) → text_size t ≤ lwmp_pdu_buf_size
unfolding text_size text_len
text_size-le none = omega arith
text_size-le (some t) = ground arith

-- In a buffer with room for the header and the text, lwmp_prepare_response builds a PDU that reads
-- back as the mark, the type, no subject, the padded optional data, the size of the text with its
-- closing zero, the text itself, and a checksum that agrees with the header; optional data of more
-- than 32 bytes is refused before this.
pub prepare_response-Reads :
    (m : List ℕ) (type : ℕ) (d : Option (List ℕ)) (len : ℕ) (t : Option (List ℕ))
    → len ≤ optdata_size
    → Given d len
    → lwmp_hdr_size + text_size t ≤ length m
    → Reads (lwmp_prepare_response m type d len t) type (padded d len) (text_size t) (text_bytes t)
unfolding lwmp_prepare_response write_start write_crc32
prepare_response-Reads m type d len t small g room =
    let started = write_start m type in
    let fits : ltb optdata_size len ≡ false = ground arith in
    let size_small = text_size-le t in
    rw (fits, write_optdata-eq started d len g, write_text-eq (write started 37 (padded d len)) t)
      (w₇-Reads m type (padded d len) (text_size t) (text_bytes t)
        (omega (arith, length-text_bytes t)) (length-padded d len small g) (omega arith))

-- Optional data of more than 32 bytes leaves the buffer as it was.
pub prepare_response-too_long :
    (m : List ℕ) (type : ℕ) (d : Option (List ℕ)) (len : ℕ) (t : Option (List ℕ))
    → optdata_size < len
    → lwmp_prepare_response m type d len t ≡ m
unfolding lwmp_prepare_response
prepare_response-too_long m type d len t h = ground arith
