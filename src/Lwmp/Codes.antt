-- ===== src/Lwmp/Codes.antt =====
-- The response codes: each status is told apart by its code, and each code has its name.
use lwmsg.Base.{◌≡◌, refl, arith}
use lwmsg.Lwmp.{
  HdrValidationStatus, hv_ok, hv_file_not_allowed, hv_file_toobig, hv_txtmsg_toobig, hv_crcerr,
  hv_inval_req, hv_inval_pdu, hv_inval_subj, resp_codes, strresp,
}
use Prim.Native.String.{String}

-- Two statuses with the same response code are the same status, so a client that reads a code knows
-- the answer.
resp_codes-injective : (a b : HdrValidationStatus) → resp_codes a ≡ resp_codes b → a ≡ b
unfolding resp_codes
resp_codes-injective a b e = ground arith

-- The name of each status's response, column `respname` of X_RESPONSES.
unfoldable pub resp_name : HdrValidationStatus → String
resp_name hv_ok = "RESP_OK"
resp_name hv_file_not_allowed = "RESP_DISALLOWED_FILE"
resp_name hv_file_toobig = "RESP_TOOBIG_FILE"
resp_name hv_txtmsg_toobig = "RESP_TOOBIG_MSG"
resp_name hv_crcerr = "RESP_INVAL_CRC"
resp_name hv_inval_req = "RESP_INVAL_REQ"
resp_name hv_inval_pdu = "RESP_INVAL_PDU"
resp_name hv_inval_subj = "RESP_DCONN_SUBJ"

-- strresp finds the name of every code that the server sends.
strresp-resp_codes : (a : HdrValidationStatus) → strresp (resp_codes a) ≡ resp_name a
unfolding resp_codes strresp resp_name
strresp-resp_codes hv_ok = refl
strresp-resp_codes _ = refl
