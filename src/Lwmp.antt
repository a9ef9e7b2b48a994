-- ===== src/Lwmp.antt =====
-- common/lwmp.h and common/lwmp.c: the wire protocol that the server and the client share.
-- A PDU or chunk in memory is the list of its bytes; the fields of the packed structs are slices.
pub mod Crc
pub mod Validate
pub mod Response
pub mod Chunk
pub mod Resync
pub mod Codes
mod Tests
use lwmsg.Base.{
  ℕ, zero, suc, ◌+◌, ◌-◌, ◌^◌, Bool, true, false, not, ◌&&◌, Option, none, some, List, [], ◌∷◌,
  ◌++◌, ltb, leb, ◌==◌, if◌then◌else◌, length, take, drop, replicate, set,
}
use lwmsg.Base.Memory.{write, slice, be_decode, be16, be32, be64}
use Prim.Native.String.{String}
use Crc.{crc32}

abbrev pub uname_size : ℕ
uname_size = 32

abbrev pub optdata_size : ℕ
optdata_size = 32

abbrev pub lwmp_max_pdu_size : ℕ
lwmp_max_pdu_size = 4096

abbrev pub pdu_sync_hdr_mark : ℕ
pdu_sync_hdr_mark = 0xF7C3EDA8

abbrev pub chunk_sync_hdr_mark : ℕ
chunk_sync_hdr_mark = 0x4FE2CD81

abbrev pub lwmp_hdr_size : ℕ
lwmp_hdr_size = 81

abbrev pub lwmp_chunk_hdr_size : ℕ
lwmp_chunk_hdr_size = 38

abbrev pub lwmp_pdu_buf_size : ℕ
lwmp_pdu_buf_size = lwmp_max_pdu_size - lwmp_hdr_size

abbrev pub lwmp_chunk_buf_size : ℕ
lwmp_chunk_buf_size = lwmp_max_pdu_size - lwmp_chunk_hdr_size

abbrev pub max_textmsg_size : ℕ
max_textmsg_size = lwmp_pdu_buf_size

-- `enum hdr_validation_status`.
pub data HdrValidationStatus : Type 0 where
  hv_ok hv_file_not_allowed hv_file_toobig hv_txtmsg_toobig : HdrValidationStatus
  hv_crcerr hv_inval_req hv_inval_pdu hv_inval_subj : HdrValidationStatus

-- `resp_codes`, the `enum resp_code` of each status.
unfoldable pub resp_codes : HdrValidationStatus → ℕ
resp_codes hv_ok = 0x4F643180
resp_codes hv_file_not_allowed = 0x7F1C825B
resp_codes hv_file_toobig = 0x1C337928
resp_codes hv_txtmsg_toobig = 0x4829CD33
resp_codes hv_crcerr = 0xCC32621A
resp_codes hv_inval_req = 0x3738AA64
resp_codes hv_inval_pdu = 0x337C801A
resp_codes hv_inval_subj = 0x772A5C19

unfoldable pub strresp : ℕ → String
strresp c =
    if c == 0x4F643180
    then "RESP_OK"
    else if c == 0x7F1C825B
    then "RESP_DISALLOWED_FILE"
    else if c == 0x1C337928
    then "RESP_TOOBIG_FILE"
    else if c == 0x4829CD33
    then "RESP_TOOBIG_MSG"
    else if c == 0xCC32621A
    then "RESP_INVAL_CRC"
    else if c == 0x3738AA64
    then "RESP_INVAL_REQ"
    else if c == 0x337C801A
    then "RESP_INVAL_PDU"
    else if c == 0x772A5C19
    then "RESP_DCONN_SUBJ"
    else "RESP_UNKNOWN"

-- `enum msg_type`.
abbrev pub mt_none : ℕ
mt_none = 0

abbrev pub mt_msg : ℕ
mt_msg = 1

abbrev pub mt_file : ℕ
mt_file = 2

abbrev pub mt_req : ℕ
mt_req = 3

abbrev pub mt_info : ℕ
mt_info = 4

-- The fields of `lwmp_pdu`, read with ntohl and be64toh.
unfoldable pub hdr_mark : List ℕ → ℕ
hdr_mark pdu = be_decode (slice pdu 0 4)

unfoldable pub msg_type : List ℕ → ℕ
msg_type pdu = be_decode (slice pdu 4 1)

unfoldable pub subject_uname : List ℕ → List ℕ
subject_uname pdu = slice pdu 5 uname_size

unfoldable pub optional_data : List ℕ → List ℕ
optional_data pdu = slice pdu 37 optdata_size

-- `request.req_type` and `response.resp_code`, the first field of their structs in the union.
unfoldable pub req_type : List ℕ → ℕ
req_type pdu = be_decode (slice pdu 37 4)

unfoldable pub total_msg_size : List ℕ → ℕ
total_msg_size pdu = be_decode (slice pdu 69 8)

unfoldable pub pdu_crc32 : List ℕ → ℕ
pdu_crc32 pdu = be_decode (slice pdu 77 4)

-- crc32(pdu, offsetof(lwmp_pdu, crc32)).
unfoldable pub hdr_crc32 : List ℕ → ℕ
hdr_crc32 pdu = crc32 (slice pdu 0 77)

-- `hdr_validation_fns`; `C` is what `subj_container` points to.
pub record HdrValidationFns (C : Type 0) : Type 0 where
  pub subj_valid_fn : C → List ℕ → Bool
  pub req_valid_fn : List ℕ → Bool
  pub allow_file_transfers : Bool
  pub max_filesize_b : ℕ

unfoldable pub lwmp_validate_hdrs :
    {C : Type 0} → List ℕ → C → List ℕ → HdrValidationFns C → HdrValidationStatus
lwmp_validate_hdrs pdu subj_container subject hvfns =
    let type = msg_type pdu in
    let size = total_msg_size pdu in
    if not (hdr_mark pdu == pdu_sync_hdr_mark)
    then hv_inval_pdu
    else if not (hdr_crc32 pdu == pdu_crc32 pdu)
    then hv_crcerr
    else if not (type == mt_msg) && not (type == mt_file) && not (type == mt_req)
    then hv_inval_pdu
    else if type == mt_file && not allow_file_transfers
    then hv_file_not_allowed
    else if allow_file_transfers && ltb max_filesize_b size
    then hv_file_toobig
    else if not (type == mt_file) && ltb max_textmsg_size size
    then hv_txtmsg_toobig
    else if not (type == mt_req) && not (subj_valid_fn subj_container subject)
    then hv_inval_subj
    else if type == mt_req && not (req_valid_fn pdu)
    then hv_inval_req
    else hv_ok
  where
    open hvfns use {subj_valid_fn, req_valid_fn, allow_file_transfers, max_filesize_b}

-- `if (optdata) … else …`: the data, and zeros for the rest of the 32 bytes.
unfoldable pub write_optdata : List ℕ → Option (List ℕ) → ℕ → List ℕ
write_optdata pdu (some optdata) len =
    write (write pdu 37 (take len optdata)) (37 + len) (replicate (optdata_size - len) 0)
write_optdata pdu none len = write pdu 37 (replicate optdata_size 0)

-- The bytes of a text that go into `buf`, besides the closing zero.
unfoldable pub text_len : List ℕ → ℕ
text_len text = if leb lwmp_pdu_buf_size (length text) then lwmp_pdu_buf_size - 1 else length text

-- `if (text) … else …`: a C string is the list of the bytes before its closing zero.
unfoldable pub write_text : List ℕ → Option (List ℕ) → List ℕ
unfolding text_len
write_text pdu (some text) =
    let n = text_len text in
    write (write (write pdu 81 (take n text)) (81 + n) (0 ∷ [])) 69 (be64 (n + 1))
write_text pdu none = write pdu 69 (replicate 8 0)

-- The first three fields that lwmp_prepare_response sets.
unfoldable pub write_start : List ℕ → ℕ → List ℕ
write_start pdu type =
    write (write (write pdu 5 (replicate uname_size 0)) 4 (type ∷ [])) 0 (be32 pdu_sync_hdr_mark)

-- The last: the checksum of the header before it.
unfoldable pub write_crc32 : List ℕ → List ℕ
write_crc32 pdu = write pdu 77 (be32 (hdr_crc32 pdu))

unfoldable pub lwmp_prepare_response : List ℕ → ℕ → Option (List ℕ) → ℕ → Option (List ℕ) → List ℕ
unfolding write_start write_optdata write_text write_crc32
lwmp_prepare_response pdu type optdata optdata_len text =
    if ltb optdata_size optdata_len
    then pdu
    else write_crc32 (write_text (write_optdata (write_start pdu type) optdata optdata_len) text)

-- strncpy(dest, src, n) of a C string `src`: at most `n` of its bytes, and zeros for the rest.
unfoldable pub strncpy : List ℕ → ℕ → List ℕ
strncpy src n = take n src ++ replicate (n - length src) 0

unfoldable pub lwmp_prepare_chunk : List ℕ → ℕ → List ℕ → List ℕ → List ℕ
unfolding strncpy
lwmp_prepare_chunk lwc size subject bytes =
    let n = if ltb lwmp_chunk_buf_size size then lwmp_chunk_buf_size else size in
    write
      (write (write (write lwc 0 (be32 chunk_sync_hdr_mark)) 6 (strncpy subject uname_size)) 4
        (be16 n))
      38 (take n bytes)

-- The fields of `lwmp_chunk`.
unfoldable pub ch_hdr_mark : List ℕ → ℕ
ch_hdr_mark lwc = be_decode (slice lwc 0 4)

unfoldable pub chunk_size : List ℕ → ℕ
chunk_size lwc = be_decode (slice lwc 4 2)

unfoldable pub chunk_subject : List ℕ → List ℕ
chunk_subject lwc = slice lwc 6 uname_size

unfoldable pub chunk_payload : List ℕ → ℕ → List ℕ
chunk_payload lwc n = slice lwc 38 n

-- The buffer begins with the synchronisation mark.
unfoldable pub starts_with_mark : List ℕ → Bool
starts_with_mark (a ∷ b ∷ c ∷ d ∷ rest) = a == 0xF7 && b == 0xC3 && c == 0xED && d == 0xA8
starts_with_mark _ = false

-- memmem(buf, buf_size, &be_hdr_mark, 4): the buffer from the first mark on.
unfoldable pub memmem_mark : List ℕ → Option (List ℕ)
unfolding starts_with_mark
memmem_mark [] = none
memmem_mark (x ∷ buf) = if starts_with_mark (x ∷ buf) then some (x ∷ buf) else memmem_mark buf

-- The loop of lwmp_stream_resync on the `buf_size` bytes of the buffer, which memmove brings to its
-- start; the result is the bytes that are left, whose number is returned. `none` is a spent fuel.
unfoldable pub resync_loop : ℕ → List ℕ → Option (List ℕ)
unfolding memmem_mark
resync_loop zero buf = none
resync_loop (suc fuel) buf = elim (memmem_mark buf) [
  | none ↦ some []
  | some found ↦
      let again = resync_loop fuel (set found 0 0) in
      if leb lwmp_hdr_size (length found) && not (hdr_crc32 found == pdu_crc32 found)
      then again
      else some found
]

unfoldable pub lwmp_stream_resync : List ℕ → Option (List ℕ)
unfolding resync_loop
lwmp_stream_resync buf = resync_loop (length buf + 1) buf
