-- ===== src/Client/Receive.antt =====
-- client/clrecv.c: the bytes that the client receives, the messages in them, and the files that they
-- make up. fwrite and fclose of a null stream do nothing here; no stream is null where the code
-- calls them.
use lwmsg.Base.{
  ℕ, zero, suc, ◌+◌, ◌-◌, Bool, true, false, ◌&&◌, ◌||◌, not, Option, none, some, List, [], ◌∷◌,
  ltb, leb, ◌==◌, if◌then◌else◌, length, take, drop, set, map, ◌>>=◌,
}
use lwmsg.Lwmp.{
  uname_size, optdata_size, lwmp_hdr_size, lwmp_pdu_buf_size, mt_msg, mt_file, mt_req, mt_info,
  msg_type, subject_uname, optional_data, req_type, total_msg_size, resp_codes, hv_ok,
}
use lwmsg.Session.Inbound.{c_string}
use lwmsg.Client.{
  ClientCtx, FileTransfer, Outside, said, server_text, server_code, online_users,
  too_many_transfers, create_failed, receiving_file, received_file, unknown_type, fopen, fwrite,
  fclose, emit, str_eq, user_cache_max,
}
use lwmsg.Client.Filename.{sanitize_filename, make_unique_filename}

abbrev pub resp_ok : ℕ
resp_ok = resp_codes hv_ok

-- The index of the first transfer of the list that passes the test.
unfoldable pub find_index : (FileTransfer → Bool) → List FileTransfer → Option (ℕ × FileTransfer)
find_index test [] = none
find_index test (ft ∷ transfers) =
    let later : Option (ℕ × FileTransfer) =
      find_index test transfers >>= (λ (i, found). some (i + 1, found)) in
    if test ft then some (0, ft) else later

unfoldable pub find_transfer : ClientCtx → List ℕ → Option (ℕ × FileTransfer)
unfolding find_index str_eq
find_transfer ctx sender = find_index (λ ft. ft.active && str_eq ft.sender sender) ctx.transfers

unfoldable pub alloc_transfer : ClientCtx → Option (ℕ × FileTransfer)
unfolding find_index
alloc_transfer ctx = find_index (λ ft. not ft.active) ctx.transfers

abbrev pub fclose_fp : ClientCtx → Option ℕ → ClientCtx
fclose_fp ctx none = ctx
fclose_fp ctx (some fp) = emit ctx (fclose fp)

abbrev pub fwrite_fp : ClientCtx → Option ℕ → List ℕ → ClientCtx
fwrite_fp ctx none bytes = ctx
fwrite_fp ctx (some fp) bytes = emit ctx (fwrite fp bytes)

-- `ft->fp = NULL; ft->active = false`, in the slot `i`.
abbrev pub end_transfer : ClientCtx → ℕ → FileTransfer → ClientCtx
end_transfer ctx i ft = record ctx {
  transfers = set ctx.transfers i (record ft { fp = none; active = false });
}

-- The streams of the active transfers, and then the transfers themselves.
unfoldable pub fclose_all : List FileTransfer → ClientCtx → ClientCtx
fclose_all [] ctx = ctx
fclose_all (ft ∷ transfers) ctx =
    fclose_all transfers (if ft.active then fclose_fp ctx ft.fp else ctx)

unfoldable pub close_all_transfers : ClientCtx → ClientCtx
unfolding fclose_all
close_all_transfers ctx =
    let closed = fclose_all ctx.transfers ctx in
    let clear =
      λ (ft : FileTransfer). record ft { fp = if ft.active then none else ft.fp; active = false } in
    record closed { transfers = map clear ctx.transfers }

-- The loop of cache_userlist over the bytes that are left, with `count` names in the cache. Each round
-- of the fuel takes a byte at least.
unfoldable pub cached_names : ℕ → ℕ → List ℕ → List (List ℕ)
unfolding c_string
cached_names zero count bytes = []
cached_names (suc fuel) count bytes =
    let uname = c_string bytes in
    let rest = drop (length uname + 1) bytes in
    let kept = uname ∷ cached_names fuel (count + 1) rest in
    let skipped = cached_names fuel count rest in
    if length bytes == 0 || leb user_cache_max count
    then []
    else if ltb 0 (length uname) && leb (length uname) uname_size
    then kept
    else skipped

unfoldable pub cache_userlist : ClientCtx → List ℕ → ClientCtx
unfolding cached_names
cache_userlist ctx payload = record ctx { user_cache = cached_names (length payload) 0 payload }

-- `pdu->buf[payload_size - 1] = '\0'`, for the payload that fits a PDU.
abbrev pub has_text : ℕ → Bool
has_text payload_size = ltb 0 payload_size && leb payload_size lwmp_pdu_buf_size

abbrev pub end_text : ClientCtx → ℕ → ClientCtx
end_text ctx i = record ctx { recv_buf = set ctx.recv_buf (lwmp_hdr_size + i) 0 }

-- The text in the buffer of the PDU.
abbrev pub pdu_text : ClientCtx → List ℕ
pdu_text ctx = c_string (drop lwmp_hdr_size ctx.recv_buf)

unfoldable pub print_server_resp : ClientCtx → ℕ → ℕ → ClientCtx
unfolding c_string
print_server_resp ctx payload_size resp_code =
    let ended = end_text ctx (payload_size - 1) in
    if resp_code == resp_ok
    then ctx
    else if has_text payload_size
    then emit ended (server_text (pdu_text ended) resp_code)
    else emit ctx (server_code resp_code)

unfoldable pub handle_msg : ClientCtx → List ℕ → ℕ → ClientCtx
unfolding c_string
handle_msg ctx sender payload_size =
    let ended = end_text ctx (if has_text payload_size then payload_size - 1 else 0) in
    emit ended (said sender (pdu_text ended))

unfoldable pub handle_info : ClientCtx → ℕ → ℕ → ClientCtx
unfolding print_server_resp
handle_info ctx payload_size resp_code =
    let printed = print_server_resp ctx payload_size resp_code in
    let answered =
      if printed.awaiting_resp
      then record printed { last_resp_code = resp_code; awaiting_resp = false }
      else printed in
    if answered.sending_chunks && not (resp_code == resp_ok)
    then record answered { transfer_error = true }
    else answered

unfoldable pub handle_req : ClientCtx → ℕ → ℕ → ClientCtx
unfolding print_server_resp cache_userlist
handle_req ctx payload_size resp_code =
    let cached = cache_userlist ctx (take payload_size (drop lwmp_hdr_size ctx.recv_buf)) in
    if resp_code == resp_ok && ltb 0 payload_size
    then emit cached (online_users cached.user_cache)
    else print_server_resp ctx payload_size resp_code

unfoldable pub end_found : Option (ℕ × FileTransfer) → ClientCtx → ClientCtx
end_found none ctx = ctx
end_found (some (i, ft)) ctx = end_transfer (fclose_fp ctx ft.fp) i ft

-- A transfer of the same sender that goes on ends here.
unfoldable pub end_existing : ClientCtx → List ℕ → ClientCtx
unfolding end_found find_transfer
end_existing ctx sender = end_found (find_transfer ctx sender) ctx

-- `if (payload_size > 0) fwrite(…)`.
unfoldable pub write_first : ClientCtx → ℕ → List ℕ → ClientCtx
write_first ctx fp payload = if ltb 0 (length payload) then emit ctx (fwrite fp payload) else ctx

-- What follows the first bytes: the file is whole, or the transfer takes the slot `i`.
unfoldable pub begin_transfer :
    ClientCtx → ℕ → FileTransfer → ℕ → List ℕ → List ℕ → ℕ → ℕ → ClientCtx
begin_transfer ctx i ft fp sender destname file_size payload_size =
    if leb file_size payload_size
    then emit (emit ctx (fclose fp)) (received_file sender destname file_size)
    else emit
        (record ctx {
          transfers = set ctx.transfers i (record ft {
            active = true;
            fp = some fp;
            expected_size = file_size;
            received = payload_size;
            sender = sender;
            filename = destname;
          });
        })
        (receiving_file sender destname file_size)

-- fopen gives the stream.
unfoldable pub begin_file : ClientCtx → ℕ → FileTransfer → List ℕ → List ℕ → ℕ → List ℕ → ClientCtx
unfolding write_first begin_transfer
begin_file ctx i ft sender destname file_size payload =
    let opened = emit (record ctx { opened = ctx.opened + 1 }) (fopen ctx.opened destname) in
    begin_transfer (write_first opened ctx.opened payload) i ft ctx.opened sender destname file_size
      (length payload)

-- The slot that alloc_transfer gives decides.
unfoldable pub store_in :
    Outside → ClientCtx → List ℕ → List ℕ → ℕ → List ℕ → Option (ℕ × FileTransfer) → ClientCtx
unfolding begin_file make_unique_filename
store_in env ctx sender filename file_size payload none = emit ctx too_many_transfers
store_in env ctx sender filename file_size payload (some (i, ft)) =
    let destname = make_unique_filename (env.access ctx.events) filename (optdata_size + 1) in
    if env.fopen_ok ctx.events destname
    then begin_file ctx i ft sender destname file_size payload
    else emit ctx (create_failed destname)

unfoldable pub store_file : Outside → ClientCtx → List ℕ → List ℕ → ℕ → List ℕ → ClientCtx
unfolding alloc_transfer store_in
store_file env ctx sender filename file_size payload =
    store_in env ctx sender filename file_size payload (alloc_transfer ctx)

unfoldable pub handle_file : Outside → ClientCtx → List ℕ → ℕ → ClientCtx
unfolding end_existing store_file c_string sanitize_filename
handle_file env ctx sender payload_size =
    let filename = sanitize_filename (c_string (optional_data ctx.recv_buf)) in
    store_file env (end_existing ctx sender) sender filename (total_msg_size ctx.recv_buf)
      (take payload_size (drop lwmp_hdr_size ctx.recv_buf))

-- The PDU that the buffer begins with.
unfoldable pub process_received_pdu : Outside → ClientCtx → ℕ → ClientCtx
unfolding handle_msg handle_info handle_req handle_file
process_received_pdu env ctx payload_size =
    let sender = c_string (subject_uname ctx.recv_buf) in
    let type = msg_type ctx.recv_buf in
    let resp_code = req_type ctx.recv_buf in
    if type == mt_msg
    then handle_msg ctx sender payload_size
    else if type == mt_info
    then handle_info ctx payload_size resp_code
    else if type == mt_req
    then handle_req ctx payload_size resp_code
    else if type == mt_file
    then handle_file env ctx sender payload_size
    else emit ctx (unknown_type type)
