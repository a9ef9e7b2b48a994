-- ===== src/Client/SafeEvents.antt =====
-- Whatever reaches the client of client/clrecv.c, the files that it makes have safe names.
use lwmsg.Base.{
  ℕ, ◌+◌, ◌%◌, ◌^◌, ◌≤◌, ◌≡◌, inl, inr, ap, arith, ◌&&◌, Option, Option-cases, none, some, List, [],
  ◌∷◌, ltb, leb, ◌==◌, length, take, drop, All, length-take, length-drop,
}
use lwmsg.Base.Memory.{slice}
use lwmsg.Lwmp.{
  lwmp_hdr_size, optdata_size, mt_msg, mt_info, mt_req, mt_file, msg_type, subject_uname,
  optional_data, req_type, total_msg_size,
}
use lwmsg.Session.Message.{text_bytes}
use lwmsg.Session.Inbound.{c_string}
use lwmsg.Client.{ClientCtx, FileTransfer, Outside, Event, fopen, fclose, emit}
use lwmsg.Client.Filename.{
  strrchr, pointed, after_last, slash, backslash, is_special, default_name, sanitize_filename,
  make_unique_filename,
}
use lwmsg.Client.Receive.{
  resp_ok, find_transfer, alloc_transfer, has_text, fclose_fp, fwrite_fp, cache_userlist,
  print_server_resp, handle_msg, handle_info, handle_req, end_found, end_existing, write_first,
  begin_transfer, begin_file, store_in, store_file, handle_file, process_received_pdu,
}
use lwmsg.Client.Parse.{append_chunk, chunk_found}
use lwmsg.Client.Rest.{if_lem}
use lwmsg.Client.SafeName.{IsSafeName, sanitize-IsSafeName, make_unique-IsSafeName, All-append}

-- A file is made under a safe name only.
abbrev pub IsSafeEvent : Event → Type 0
IsSafeEvent e = elim e as (λ _. Type 0) [ fopen fp name ↦ IsSafeName name | _ ↦ Unit {0} ]

abbrev pub IsSafe : ClientCtx → Type 0
IsSafe ctx = All IsSafeEvent ctx.events

pub emit-IsSafe : (ctx : ClientCtx) (e : Event) → IsSafeEvent e → IsSafe ctx → IsSafe (emit ctx e)
emit-IsSafe ctx e p h = All-append IsSafeEvent ctx.events (e ∷ []) h (p, tt)

pub fclose_fp-IsSafe : (ctx : ClientCtx) (fp : Option ℕ) → IsSafe ctx → IsSafe (fclose_fp ctx fp)
fclose_fp-IsSafe ctx none h = h
fclose_fp-IsSafe ctx (some fp) h = emit-IsSafe ctx (fclose fp) tt h

fwrite_fp-IsSafe :
    (ctx : ClientCtx) (fp : Option ℕ) (bytes : List ℕ)
    → IsSafe ctx
    → IsSafe (fwrite_fp ctx fp bytes)
fwrite_fp-IsSafe ctx none bytes h = h
fwrite_fp-IsSafe ctx (some fp) bytes h = emit-IsSafe ctx _ tt h

strrchr-le : (c : ℕ) (s p : List ℕ) → strrchr c s ≡ some p → length p ≤ length s
unfolding strrchr
strrchr-le c [] p e = absurd (ground (arith, e))
strrchr-le c (x ∷ s) p e = elim (Option-cases (strrchr c s)) [
  | inl q ↦ ground (arith, q, e)
  | inr (found, q) ↦ let ih = strrchr-le c s found q in ground (arith, q, e)
]

length-after_last : (c : ℕ) (s : List ℕ) → length (after_last c s) ≤ length s
length-after_last c s = elim (Option-cases (strrchr c s)) [
  | inl e ↦ omega (arith, ap (λ o. length (pointed s o)) e)
  | inr (p, e) ↦
      omega (arith, ap (λ o. length (pointed s o)) e, strrchr-le c s p e, length-drop 1 p)
]

length-sanitize :
    (raw : List ℕ) → length raw ≤ optdata_size → length (sanitize_filename raw) ≤ optdata_size
unfolding sanitize_filename text_bytes
length-sanitize raw h =
    let first = after_last slash raw in
    let base = after_last backslash first in
    let base_short : length base ≤ optdata_size =
      omega (arith, length-after_last slash raw, length-after_last backslash first) in
    let default_short : length default_name ≤ optdata_size = omega arith in
    if_lem (λ (n : List ℕ). length n ≤ optdata_size) (is_special base) (λ _. default_short)
      (λ _. base_short)

length-c_string : (s : List ℕ) → length (c_string s) ≤ length s
unfolding c_string
length-c_string [] = omega arith
length-c_string (b ∷ s) = ground (arith, length-c_string s)

module _ (ctx : ClientCtx) (w : ℕ) (h : IsSafe ctx) where
  print_server_resp-IsSafe : (code : ℕ) → IsSafe (print_server_resp ctx w code)
  unfolding print_server_resp
  print_server_resp-IsSafe code =
      if_lem IsSafe (code == resp_ok) (λ _. h)
        (λ _.
          if_lem IsSafe (has_text w) (λ _. emit-IsSafe ctx _ tt h) (λ _. emit-IsSafe ctx _ tt h))

  handle_msg-IsSafe : (sender : List ℕ) → IsSafe (handle_msg ctx sender w)
  unfolding handle_msg
  handle_msg-IsSafe sender = emit-IsSafe ctx _ tt h

  handle_info-IsSafe : (code : ℕ) → IsSafe (handle_info ctx w code)
  unfolding handle_info
  handle_info-IsSafe code = ground (arith, print_server_resp-IsSafe code)

  handle_req-IsSafe : (code : ℕ) → IsSafe (handle_req ctx w code)
  unfolding handle_req cache_userlist
  handle_req-IsSafe code =
      if_lem IsSafe (code == resp_ok && ltb 0 w) (λ _. emit-IsSafe ctx _ tt h)
        (λ _. print_server_resp-IsSafe code)

end_found-IsSafe :
    (ctx : ClientCtx) (found : Option (ℕ × FileTransfer))
    → IsSafe ctx
    → IsSafe (end_found found ctx)
unfolding end_found
end_found-IsSafe ctx none h = h
end_found-IsSafe ctx (some (i, ft)) h = fclose_fp-IsSafe ctx ft.fp h

begin_file-IsSafe :
    (ctx : ClientCtx) (i : ℕ) (ft : FileTransfer) (sender name : List ℕ) (size : ℕ)
    (payload : List ℕ)
    → IsSafeName name
    → IsSafe ctx
    → IsSafe (begin_file ctx i ft sender name size payload)
unfolding begin_file write_first begin_transfer
begin_file-IsSafe ctx i ft sender name size payload v h =
    let opened = emit (record ctx { opened = ctx.opened + 1 }) (fopen ctx.opened name) in
    let safe = emit-IsSafe ctx (fopen ctx.opened name) v h in
    let written : IsSafe (write_first opened ctx.opened payload) =
      if_lem IsSafe (ltb 0 (length payload)) (λ _. emit-IsSafe opened _ tt safe) (λ _. safe) in
    let c = write_first opened ctx.opened payload in
    if_lem IsSafe (leb size (length payload))
      (λ _.
        emit-IsSafe (emit c (fclose ctx.opened)) _ tt
          (emit-IsSafe c (fclose ctx.opened) tt written))
      (λ _. emit-IsSafe c _ tt written)

store_in-IsSafe :
    (env : Outside) (ctx : ClientCtx) (sender filename : List ℕ) (size : ℕ) (payload : List ℕ)
    (slot : Option (ℕ × FileTransfer))
    → IsSafeName filename
    → length filename ≤ optdata_size
    → IsSafe ctx
    → IsSafe (store_in env ctx sender filename size payload slot)
unfolding store_in
store_in-IsSafe env ctx sender filename size payload none v short h = emit-IsSafe ctx _ tt h
store_in-IsSafe env ctx sender filename size payload (some (i, ft)) v short h =
    let name = make_unique_filename (env.access ctx.events) filename (optdata_size + 1) in
    if_lem IsSafe (env.fopen_ok ctx.events name)
      (λ _.
        begin_file-IsSafe ctx i ft sender name size payload
          (make_unique-IsSafeName (env.access ctx.events) filename v short) h)
      (λ _. emit-IsSafe ctx _ tt h)

handle_file-IsSafe :
    (env : Outside) (ctx : ClientCtx) (sender : List ℕ) (w : ℕ)
    → IsSafe ctx
    → IsSafe (handle_file env ctx sender w)
unfolding handle_file end_existing store_file optional_data slice
handle_file-IsSafe env ctx sender w h =
    let c = end_existing ctx sender in
    let raw = c_string (optional_data ctx.recv_buf) in
    store_in-IsSafe env c sender (sanitize_filename raw) (total_msg_size ctx.recv_buf)
      (take w (drop lwmp_hdr_size ctx.recv_buf)) (alloc_transfer c) (sanitize-IsSafeName raw)
      (length-sanitize raw (
        omega (
          arith,
          length-c_string (optional_data ctx.recv_buf),
          length-take 32 (drop 37 ctx.recv_buf),
        )))
      (end_found-IsSafe ctx (find_transfer ctx sender) h)

pub process-IsSafe :
    (env : Outside) (ctx : ClientCtx) (w : ℕ) → IsSafe ctx → IsSafe (process_received_pdu env ctx w)
unfolding process_received_pdu
process-IsSafe env ctx w h =
    let sender = c_string (subject_uname ctx.recv_buf) in
    let type = msg_type ctx.recv_buf in
    let code = req_type ctx.recv_buf in
    if_lem IsSafe (type == mt_msg) (λ _. handle_msg-IsSafe ctx w h sender)
      (λ _.
        if_lem IsSafe (type == mt_info) (λ _. handle_info-IsSafe ctx w h code)
          (λ _.
            if_lem IsSafe (type == mt_req) (λ _. handle_req-IsSafe ctx w h code)
              (λ _.
                if_lem IsSafe (type == mt_file) (λ _. handle_file-IsSafe env ctx sender w h)
                  (λ _. emit-IsSafe ctx _ tt h))))

pub chunk_found-IsSafe :
    (ctx : ClientCtx) (payload : List ℕ) (found : Option (ℕ × FileTransfer))
    → IsSafe ctx
    → IsSafe (chunk_found ctx payload found)
unfolding chunk_found append_chunk
chunk_found-IsSafe ctx payload none h = h
chunk_found-IsSafe ctx payload (some (i, ft)) h =
    let written = fwrite_fp ctx ft.fp payload in
    let safe = fwrite_fp-IsSafe ctx ft.fp payload h in
    if_lem IsSafe (leb ft.expected_size ((ft.received + length payload) % 2 ^ 64))
      (λ _. emit-IsSafe (fclose_fp written ft.fp) _ tt (fclose_fp-IsSafe written ft.fp safe))
      (λ _. safe)
