-- ===== src/Client/RelayedPdu.antt =====
-- What relayed_pdu of the server's model changes in a PDU that it relays, as client/clrecv.c reads it.
use lwmsg.Base.{
  ℕ, ◌+◌, ◌≤◌, ◌≡◌, ◌⊎◌, inl, inr, sym, ap, ◌∙◌, arith, List, length, take, drop, ◌&&◌, ◌==◌, ltb,
  if◌then◌else◌,
}
use lwmsg.Base.Memory.{
  write, slice, be_decode, be32, length-write, slice-write_self, slice-write_before,
  slice-write_after, be_decode-be32, length-be32,
}
use lwmsg.Lwmp.{
  lwmp_hdr_size, lwmp_pdu_buf_size, uname_size, mt_file, hdr_mark, msg_type, subject_uname,
  optional_data, total_msg_size, pdu_crc32, hdr_crc32, strncpy, write_crc32,
}
use lwmsg.Lwmp.Crc.{crc32}
use lwmsg.Lwmp.Chunk.{length-strncpy}
use lwmsg.Lwmp.Response.{hdr_crc32-lt}
use lwmsg.Session.Inbound.{Server, c_string, relayed_pdu}
use lwmsg.Client.Parse.{wire_payload}
use lwmsg.Client.WholeFile.{pdu_sender, first_bytes}
use lwmsg.Client.Relayed.{IsName, c_string-strncpy}

abbrev pub pdu_bytes : Server → List ℕ → List ℕ
pdu_bytes server pdu = (relayed_pdu server pdu).buf

module _ (server : Server) (pdu : List ℕ) (room : lwmp_hdr_size ≤ length pdu) where
  abbrev name : List ℕ
  name = strncpy server.username uname_size

  abbrev named : List ℕ
  named = write pdu 5 name

  abbrev sum : List ℕ
  sum = be32 (hdr_crc32 named)

  -- The relayed PDU differs from the one that came in the name and the checksum only.
  kept :
      (o n : ℕ)
      → (o + n ≤ 5) ⊎ ((37 ≤ o) × (o + n ≤ 77)) ⊎ (81 ≤ o)
      → slice (write named 77 sum) o n ≡ slice pdu o n
  kept o n (inl h) =
      slice-write_before named 77 sum o n (omega arith) ∙ slice-write_before pdu 5 name o n h
  kept o n (inr (inl h)) =
      slice-write_before named 77 sum o n h.1
      ∙ slice-write_after pdu 5 name o n (omega (arith, length-strncpy server.username uname_size))
  kept o n (inr (inr h)) =
      slice-write_after named 77 sum o n (omega (arith, length-be32 (hdr_crc32 named)))
      ∙ slice-write_after pdu 5 name o n (omega (arith, length-strncpy server.username uname_size))

  pub length-pdu_bytes : length (pdu_bytes server pdu) ≡ length pdu
  unfolding relayed_pdu write_crc32
  length-pdu_bytes = length-write named 77 sum ∙ length-write pdu 5 name

  pub pdu_mark : hdr_mark (pdu_bytes server pdu) ≡ hdr_mark pdu
  unfolding relayed_pdu write_crc32 hdr_mark
  pdu_mark = ap be_decode (kept 0 4 (inl (omega arith)))

  pub pdu_type : msg_type (pdu_bytes server pdu) ≡ msg_type pdu
  unfolding relayed_pdu write_crc32 msg_type
  pdu_type = ap be_decode (kept 4 1 (inl (omega arith)))

  pub pdu_optional : optional_data (pdu_bytes server pdu) ≡ optional_data pdu
  unfolding relayed_pdu write_crc32 optional_data
  pdu_optional = kept 37 32 (inr (inl (omega arith)))

  pub pdu_size : total_msg_size (pdu_bytes server pdu) ≡ total_msg_size pdu
  unfolding relayed_pdu write_crc32 total_msg_size
  pdu_size = ap be_decode (kept 69 8 (inr (inl (omega arith))))

  pub pdu_wire : wire_payload (pdu_bytes server pdu) ≡ wire_payload pdu
  unfolding wire_payload
  pdu_wire =
      ap
        (λ (t : ℕ).
          if t == mt_file && ltb lwmp_pdu_buf_size (total_msg_size (pdu_bytes server pdu))
          then lwmp_pdu_buf_size
          else total_msg_size (pdu_bytes server pdu))
        pdu_type
      ∙ ap
          (λ (s : ℕ).
            if msg_type pdu == mt_file && ltb lwmp_pdu_buf_size s then lwmp_pdu_buf_size else s)
          pdu_size

  pub pdu_first : first_bytes (pdu_bytes server pdu) ≡ first_bytes pdu
  unfolding relayed_pdu write_crc32 slice
  pdu_first =
      ap (λ (n : ℕ). take n (drop lwmp_hdr_size (pdu_bytes server pdu))) pdu_wire
      ∙ kept 81 (wire_payload pdu) (inr (inr (omega arith)))

  pub pdu_from : IsName server.username → pdu_sender (pdu_bytes server pdu) ≡ server.username
  unfolding relayed_pdu write_crc32 subject_uname
  pdu_from v =
      ap c_string (
        slice-write_before named 77 sum 5 32 (omega arith)
        ∙ slice-write_self pdu 5 name 32 (length-strncpy server.username uname_size) (omega arith))
      ∙ c_string-strncpy server.username v

  pub pdu_intact : hdr_crc32 (pdu_bytes server pdu) ≡ pdu_crc32 (pdu_bytes server pdu)
  unfolding relayed_pdu write_crc32 hdr_crc32 pdu_crc32
  pdu_intact =
      ap crc32 (slice-write_before named 77 sum 0 77 (omega arith))
      ∙ sym (be_decode-be32 (hdr_crc32 named) (hdr_crc32-lt named))
      ∙ ap be_decode (
          sym (
            slice-write_self named 77 sum 4 (length-be32 (hdr_crc32 named))
              (omega (arith, length-write pdu 5 name))))
