-- ===== src/Client/WholeFile.antt =====
-- The client of client/clrecv.c stores the bytes of a file that another client sends.
use mathlib.Core.List.{append_assoc}
use lwmsg.Base.{
  not, ℕ, ◌+◌, ◌<◌, ◌^◌, ◌≡◌, inl, inr, refl, ap, ◌∙◌, arith, true, false, ◌&&◌, none, some, List,
  [], ◌∷◌, ◌++◌, ltb, leb, ◌==◌, length, take, drop, set, All, Returns, map,
}
use lwmsg.Lwmp.{
  lwmp_hdr_size, optdata_size, pdu_sync_hdr_mark, mt_file, mt_msg, mt_info, mt_req, hdr_mark,
  msg_type, subject_uname, optional_data, total_msg_size,
}
use lwmsg.Session.Inbound.{c_string}
use lwmsg.Client.{
  ClientCtx, FileTransfer, Outside, Event, fopen, fwrite, fclose, receiving_file, received_file,
  emit, str_eq,
}
use lwmsg.Client.Filename.{sanitize_filename, make_unique_filename}
use lwmsg.Client.Receive.{
  find_transfer, alloc_transfer, end_existing, end_found, write_first, begin_transfer, begin_file,
  store_in, store_file, handle_file, process_received_pdu,
}
use lwmsg.Client.Parse.{wire_payload}
use lwmsg.Client.Frame.{with_buf, IsPdu, IsFrame, receive}
use lwmsg.Client.Steps.{then_lem, else_lem}
use lwmsg.Client.Stream.{concat, receive_all}
use lwmsg.Client.Pieces.{feed, feed-frames}
use lwmsg.Client.Transfer.{
  find_index-lt, find_index-set-none, going, ended, at_bytes, chunks_run, file_data, ChunkFrom,
  length_all, length-file_data,
}

-- What a PDU says of a file: its sender, its first bytes, and the name to store it under.
abbrev pub pdu_sender : List ℕ → List ℕ
pdu_sender f = c_string (subject_uname f)

abbrev pub first_bytes : List ℕ → List ℕ
first_bytes f = take (wire_payload f) (drop lwmp_hdr_size f)

abbrev pub dest_name : Outside → ClientCtx → List ℕ → List ℕ
dest_name env ctx f =
    make_unique_filename (env.access ctx.events) (sanitize_filename (c_string (optional_data f)))
      (optdata_size + 1)

begin_file-more :
    (c : ClientCtx) (i : ℕ) (ft : FileTransfer) (sender name : List ℕ) (size : ℕ) (payload : List ℕ)
    → 0 < length payload
    → length payload < size
    → begin_file c i ft sender name size payload
      ≡ at_bytes
          (record c { opened = c.opened + 1 })
          i
          (going ft c.opened size (length payload) sender name)
          (((c.events ++ fopen c.opened name ∷ []) ++ fwrite c.opened payload ∷ [])
            ++ receiving_file sender name size ∷ [])
unfolding begin_file write_first begin_transfer
begin_file-more c i ft sender name size payload pos more =
    let opened = emit (record c { opened = c.opened + 1 }) (fopen c.opened name) in
    ap (λ w. begin_transfer w i ft c.opened sender name size (length payload))
      (then_lem (ltb 0 (length payload)) (emit opened (fwrite c.opened payload)) opened
        (ground arith))
    ∙ else_lem (leb size (length payload)) _ _ (ground arith)

-- The client can take the file: none is on the way from that sender, a slot is free, and fopen gives
-- a stream.
pub record CanStore (env : Outside) (ctx : ClientCtx) (f : List ℕ) : Type 0 where
  pub idle : find_transfer ctx (pdu_sender f) ≡ none
  pub i : ℕ
  pub ft : FileTransfer
  pub slot : alloc_transfer ctx ≡ some (i, ft)
  pub opens : env.fopen_ok ctx.events (dest_name env ctx f) ≡ true

module _ (env : Outside) (ctx : ClientCtx) (f : List ℕ) (p : IsPdu f) (file : msg_type f ≡ mt_file)
    (can : CanStore env ctx f) (more : length (first_bytes f) < total_msg_size f)
    (some_bytes : 0 < length (first_bytes f)) where
  abbrev base : ClientCtx
  base = record ctx { recv_buf = f; opened = ctx.opened + 1 }

  abbrev begun : List Event
  begun =
      ((ctx.events ++ fopen ctx.opened (dest_name env ctx f) ∷ [])
        ++ fwrite ctx.opened (first_bytes f) ∷ [])
      ++ receiving_file (pdu_sender f) (dest_name env ctx f) (total_msg_size f) ∷ []

  begin-eq :
      receive env ctx f
      ≡ at_bytes base can.i
          (going can.ft ctx.opened
            (total_msg_size f)
            (length (first_bytes f))
            (pdu_sender f)
            (dest_name env ctx f))
          begun
  unfolding receive process_received_pdu handle_file end_existing store_file store_in
  begin-eq =
      let c = with_buf f ctx in
      let sender = pdu_sender f in
      let size = total_msg_size f in
      let name = sanitize_filename (c_string (optional_data f)) in
      then_lem (hdr_mark f == pdu_sync_hdr_mark) _ _ (ground (arith, p.marked))
      ∙ else_lem (msg_type f == mt_msg) _ _ (ground (arith, file))
      ∙ else_lem (msg_type f == mt_info) _ _ (ground (arith, file))
      ∙ else_lem (msg_type f == mt_req) _ _ (ground (arith, file))
      ∙ then_lem (msg_type f == mt_file) _ _ (ground (arith, file))
      ∙ ap (λ found. store_file env (end_found found c) sender name size (first_bytes f)) can.idle
      ∙ ap (store_in env c sender name size (first_bytes f)) can.slot
      ∙ then_lem (env.fopen_ok ctx.events (dest_name env ctx f)) _ _ can.opens
      ∙ begin_file-more c can.i can.ft sender (dest_name env ctx f) size (first_bytes f) some_bytes
          more

-- The file is stored: its stream was opened, has taken the data in order, and is closed; the slot is
-- free, the other transfers are as before, and the buffer is empty.
pub record Stored (env : Outside) (ctx : ClientCtx) (f : List ℕ) (chunks : List (List ℕ)) (i : ℕ)
    (c' : ClientCtx) : Type 0 where
  pub done_events :
      c'.events
      ≡ ctx.events
        ++ fopen ctx.opened (dest_name env ctx f)
          ∷ fwrite ctx.opened (first_bytes f)
          ∷ receiving_file (pdu_sender f) (dest_name env ctx f) (total_msg_size f)
          ∷ (map (fwrite ctx.opened) (map file_data chunks)
              ++ fclose ctx.opened
                ∷ received_file (pdu_sender f) (dest_name env ctx f) (total_msg_size f)
                ∷ [])
  pub idle_again : find_transfer c' (pdu_sender f) ≡ none
  pub others : (ft : FileTransfer) × (c'.transfers ≡ set ctx.transfers i ft) × (ft.active ≡ false)
  pub drained : c'.recv_buf ≡ []

ChunkFrom-frames :
    (sender : List ℕ) (chunks : List (List ℕ)) → All (ChunkFrom sender) chunks → All IsFrame chunks
ChunkFrom-frames sender [] ps = tt
ChunkFrom-frames sender (f ∷ chunks) (p, ps) = (inr p.chunk, ChunkFrom-frames sender chunks ps)

-- A file that comes as a first PDU and at least one chunk of the same sender, with as much data as the
-- PDU says, reaches the client's empty buffer in any pieces. Where the client can take it, the client
-- writes the data of the PDU and of the chunks in order to one stream, closes it, and is then as
-- before but for the events and the slot of the transfer.
pub feed-Stored :
    (env : Outside) (ctx : ClientCtx) (f g : List ℕ) (chunks pieces : List (List ℕ))
    → IsPdu f
    → msg_type f ≡ mt_file
    → (can : CanStore env ctx f) → 0 < length (first_bytes f)
    → ChunkFrom (pdu_sender f) g
    → All (ChunkFrom (pdu_sender f)) chunks
    → length (first_bytes f) + length_all (g ∷ chunks) ≡ total_msg_size f
    → total_msg_size f < 2 ^ 64
    → concat pieces ≡ concat (f ∷ g ∷ chunks)
    → Returns (Stored env ctx f (g ∷ chunks) can.i) (feed env (with_buf [] ctx) pieces)
unfolding find_transfer alloc_transfer
feed-Stored env ctx f g chunks pieces p file can pos q ps total small cut =
    let sender = pdu_sender f in
    let size = total_msg_size f in
    let name = dest_name env ctx f in
    let slot = find_index-lt (λ ft. not ft.active) ctx.transfers can.i can.ft can.slot in
    let more : length (first_bytes f) < size = omega (arith, length-file_data g q) in
    let begun-events = begun env ctx f p file can more pos in
    let start = base env ctx f p file can more pos in
    (
      _,
      feed-frames env ctx (f ∷ g ∷ chunks) pieces
            (inl p, (inr q.chunk, ChunkFrom-frames sender chunks ps)) cut
          ∙ ap (λ c. some (with_buf [] c))
              (ap (λ c. receive_all env c (g ∷ chunks)) (begin-eq env ctx f p file can more pos)
                ∙ chunks_run start sender can.i can.ft ctx.opened size name can.idle slot small env
                    (length (first_bytes f)) begun-events g chunks q ps (omega arith)),
      record {
        done_events = simp append_assoc;
        idle_again =
            find_index-set-none (λ t. t.active && str_eq t.sender sender) ctx.transfers can.i
              (ended (going can.ft ctx.opened size size sender name)) can.idle refl;
        others = (ended (going can.ft ctx.opened size size sender name), refl, refl);
        drained = refl;
      },
    )
