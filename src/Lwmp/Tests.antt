-- ===== src/Lwmp/Tests.antt =====
-- The wire protocol on small buffers.
use lwmsg.Base.{ℕ, ◌≡◌, ◌↔◌, refl, true, false, some, List, [], ◌∷◌, arith, replicate}
use lwmsg.Base.Memory.{write, slice, be_decode, be32, be64}
use lwmsg.Lwmp.{
  HdrValidationFns, hv_ok, hdr_mark, hdr_crc32, pdu_crc32, msg_type, total_msg_size, mt_msg,
  lwmp_validate_hdrs, lwmp_prepare_response, lwmp_prepare_chunk, lwmp_stream_resync,
  starts_with_mark, text_len,
}
use lwmsg.Lwmp.Crc.{crc32, crc32_table}
use lwmsg.Lwmp.Crc.Bitwise.{crc32_bitwise, crc32-eq-bitwise}
use lwmsg.Lwmp.Validate.{Accepts, validate-ok_iff}
use lwmsg.Lwmp.Response.{Reads, padded, text_size, text_bytes, prepare_response-Reads}
use lwmsg.Lwmp.Chunk.{Carries, prepare_chunk-Carries}
use lwmsg.Lwmp.Resync.{first_candidate, stream_resync-eq-first_candidate}

abbrev digits : List ℕ
digits = 0x31 ∷ 0x32 ∷ 0x33 ∷ 0x34 ∷ 0x35 ∷ 0x36 ∷ 0x37 ∷ 0x38 ∷ 0x39 ∷ []

-- The check value of CRC-32/BZIP2.
crc32_check : crc32 digits ≡ 0xFC891918
unfolding crc32 crc32_table
crc32_check = refl

crc32-eq-bitwise_example : crc32 digits ≡ crc32_bitwise digits
crc32-eq-bitwise_example = crc32-eq-bitwise digits (omega arith)

abbrev text : List ℕ
text = b'h' ∷ b'i' ∷ []

-- A PDU that carries the text as a message.
abbrev sample : List ℕ
sample = lwmp_prepare_response (replicate 100 7) mt_msg (some (1 ∷ 2 ∷ [])) 2 (some text)

abbrev fns : HdrValidationFns (Unit {0})
fns = record {
  subj_valid_fn = λ c s. true;
  req_valid_fn = λ p. false;
  allow_file_transfers = true;
  max_filesize_b = 200;
}

sample_accepted : lwmp_validate_hdrs sample tt [] fns ≡ hv_ok
unfolding lwmp_prepare_response lwmp_validate_hdrs hdr_mark hdr_crc32 pdu_crc32 msg_type
    total_msg_size slice be_decode write be32 be64 crc32 crc32_table
sample_accepted = refl

validate-ok_iff_example : (lwmp_validate_hdrs sample tt [] fns ≡ hv_ok) ↔ Accepts sample tt [] fns
validate-ok_iff_example = validate-ok_iff sample tt [] fns

prepare_response-Reads_example :
    Reads sample mt_msg
      (padded (some (1 ∷ 2 ∷ [])) 2)
      (text_size (some text))
      (text_bytes (some text))
unfolding text_size text_len
prepare_response-Reads_example =
    prepare_response-Reads (replicate 100 7) mt_msg (some (1 ∷ 2 ∷ [])) 2 (some text) (omega arith)
      (omega arith) (omega arith)

prepare_chunk-Carries_example :
    Carries (lwmp_prepare_chunk (replicate 40 0) 2 (b'b' ∷ []) text) 2 (b'b' ∷ []) text
prepare_chunk-Carries_example =
    prepare_chunk-Carries (replicate 40 0) 2 (b'b' ∷ []) text (omega arith) (omega arith)

-- Noise, a mark with a bad header behind it, and then a good header.
abbrev noisy : List ℕ
noisy = 3 ∷ 0xF7 ∷ 0xC3 ∷ 0xED ∷ 0xA8 ∷ 9 ∷ sample

resynchronised : lwmp_stream_resync noisy ≡ some sample
unfolding lwmp_stream_resync starts_with_mark lwmp_prepare_response hdr_crc32 pdu_crc32 slice
    be_decode write be32 be64 crc32 crc32_table
resynchronised = refl

stream_resync-eq-first_candidate_example : lwmp_stream_resync noisy ≡ some (first_candidate noisy)
stream_resync-eq-first_candidate_example = stream_resync-eq-first_candidate noisy
