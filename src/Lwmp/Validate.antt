-- ===== src/Lwmp/Validate.antt =====
-- lwmp_validate_hdrs: which headers the server accepts, and what each refusal means.
use lwmsg.Base.{ℕ, ◌≤◌, ◌<◌, ◌≡◌, ◌≢◌, ◌⊎◌, ◌↔◌, true, false, List, arith}
use lwmsg.Lwmp.{
  HdrValidationFns, lwmp_validate_hdrs, hdr_mark, hdr_crc32, pdu_crc32, msg_type, total_msg_size,
  pdu_sync_hdr_mark, max_textmsg_size, mt_msg, mt_file, mt_req, hv_ok, hv_crcerr, hv_file_toobig,
}

module _ {C : Type 0} (pdu : List ℕ) (c : C) (subject : List ℕ) (h : HdrValidationFns C) where
  abbrev pub IsKnownType : Type 0
  IsKnownType = (msg_type pdu ≡ mt_msg) ⊎ (msg_type pdu ≡ mt_file) ⊎ (msg_type pdu ≡ mt_req)

  -- What the server asks of a header.
  pub record Accepts : Type 0 where
    pub marked : hdr_mark pdu ≡ pdu_sync_hdr_mark
    pub intact : hdr_crc32 pdu ≡ pdu_crc32 pdu
    pub known : IsKnownType
    pub file_allowed : (msg_type pdu ≢ mt_file) ⊎ (h.allow_file_transfers ≡ true)
    pub within_limit : (h.allow_file_transfers ≡ false) ⊎ (total_msg_size pdu ≤ h.max_filesize_b)
    pub text_fits : (msg_type pdu ≡ mt_file) ⊎ (total_msg_size pdu ≤ max_textmsg_size)
    pub reachable : (msg_type pdu ≡ mt_req) ⊎ (h.subj_valid_fn c subject ≡ true)
    pub served : (msg_type pdu ≢ mt_req) ⊎ (h.req_valid_fn pdu ≡ true)

  -- lwmp_validate_hdrs answers HV_OK exactly for the headers that carry the mark, a checksum that
  -- agrees with the header, a type that the server relays or serves, an allowed size, and a
  -- recipient (or a request) that the callback accepts.
  pub validate-ok_iff : (lwmp_validate_hdrs pdu c subject h ≡ hv_ok) ↔ Accepts
  unfolding lwmp_validate_hdrs
  validate-ok_iff = ((λ e. ground arith), (λ a. ground arith))

  -- HV_CRCERR, on which the server resynchronises the stream, is answered exactly for a header with
  -- the mark whose checksum disagrees, whatever the other fields hold.
  validate-crcerr_iff :
      (lwmp_validate_hdrs pdu c subject h ≡ hv_crcerr)
      ↔ ((hdr_mark pdu ≡ pdu_sync_hdr_mark) × (hdr_crc32 pdu ≢ pdu_crc32 pdu))
  unfolding lwmp_validate_hdrs
  validate-crcerr_iff = ground arith

  -- A text message with a valid header that fits a PDU is refused as a too big file, where files are
  -- allowed and the message is longer than the limit on files.
  pub validate-text_file_toobig :
      hdr_mark pdu ≡ pdu_sync_hdr_mark
      → hdr_crc32 pdu ≡ pdu_crc32 pdu
      → msg_type pdu ≡ mt_msg
      → h.allow_file_transfers ≡ true
      → h.max_filesize_b < total_msg_size pdu
      → total_msg_size pdu ≤ max_textmsg_size
      → lwmp_validate_hdrs pdu c subject h ≡ hv_file_toobig
  unfolding lwmp_validate_hdrs
  validate-text_file_toobig m i t a l s = ground arith
