-- ===== src/Client/EndToEnd.antt =====
-- From the server of server/worker.c to the files of the client of client/clrecv.c.
use lwmsg.Base.{
  ℕ, ◌+◌, ◌≤◌, ◌<◌, ◌^◌, ◌≡◌, inr, refl, sym, ap, subst, ◌∙◌, arith, List, [], ◌∷◌, ◌++◌, length,
  drop, All, Returns, map, length-take, length-drop, length-append,
}
use lwmsg.Lwmp.{
  lwmp_hdr_size, lwmp_pdu_buf_size, optdata_size, pdu_sync_hdr_mark, mt_file, hdr_mark, msg_type,
  total_msg_size,
}
use lwmsg.Session.Inbound.{Server, c_string}
use lwmsg.Client.{ClientCtx, Outside, Event, fopen, fwrite, fclose, receiving_file, received_file}
use lwmsg.Client.Filename.{sanitize_filename, make_unique_filename}
use lwmsg.Client.Parse.{wire_payload}
use lwmsg.Client.Frame.{with_buf, IsPdu}
use lwmsg.Client.Stream.{concat}
use lwmsg.Client.Pieces.{feed}
use lwmsg.Client.Transfer.{file_data, ChunkFrom, length_all}
use lwmsg.Client.WholeFile.{pdu_sender, first_bytes, dest_name, CanStore, feed-Stored}
use lwmsg.Client.Relayed.{IsName, IsData, chunk_bytes, chunk-ChunkFrom, chunk-file_data}
use lwmsg.Client.RelayedPdu.{
  pdu_bytes, length-pdu_bytes, pdu_mark, pdu_type, pdu_optional, pdu_size, pdu_wire, pdu_first,
  pdu_from, pdu_intact,
}

-- A file that does not fit its first PDU fills it.
wire_file :
    (pdu : List ℕ)
    → msg_type pdu ≡ mt_file
    → wire_payload pdu < total_msg_size pdu
    → wire_payload pdu ≡ lwmp_pdu_buf_size
unfolding wire_payload
wire_file pdu file more = ground arith

chunks_from :
    (server : Server) (datas : List (List ℕ))
    → IsName server.username
    → All IsData datas
    → All (ChunkFrom server.username) (map (chunk_bytes server) datas)
chunks_from server [] v ds = tt
chunks_from server (bytes ∷ datas) v (d, ds) =
    (chunk-ChunkFrom server bytes v d, chunks_from server datas v ds)

datas-eq :
    (server : Server) (datas : List (List ℕ))
    → All IsData datas
    → map file_data (map (chunk_bytes server) datas) ≡ datas
datas-eq server [] ds = refl
datas-eq server (bytes ∷ datas) (d, ds) =
    ap (λ b. b ∷ map file_data (map (chunk_bytes server) datas)) (chunk-file_data server bytes d)
    ∙ ap (◌∷◌ bytes) (datas-eq server datas ds)

length_all-eq :
    (server : Server) (datas : List (List ℕ))
    → All IsData datas
    → length_all (map (chunk_bytes server) datas) ≡ length (concat datas)
length_all-eq server [] ds = refl
length_all-eq server (bytes ∷ datas) (d, ds) = omega (
  arith,
  ap length (chunk-file_data server bytes d),
  length_all-eq server datas ds,
  length-append bytes (concat datas),
)

-- The events of a file that is received: its stream takes the data in order, and is closed.
abbrev pub file_events : ℕ → List ℕ → List ℕ → ℕ → List ℕ → List (List ℕ) → List Event
file_events fp sender name size first datas =
    fopen fp name
    ∷ fwrite fp first
    ∷ receiving_file sender name size
    ∷ (map (fwrite fp) datas ++ fclose fp ∷ received_file sender name size ∷ [])

same_events :
    (server : Server) (before : List Event) (fp : ℕ) (pdu : List ℕ) (datas : List (List ℕ))
    → IsName server.username
    → All IsData datas
    → lwmp_hdr_size ≤ length pdu
    → (env : Outside) (ctx : ClientCtx)
    → before
        ++ file_events fp
            (pdu_sender (pdu_bytes server pdu))
            (dest_name env ctx (pdu_bytes server pdu))
            (total_msg_size (pdu_bytes server pdu))
            (first_bytes (pdu_bytes server pdu))
            (map file_data (map (chunk_bytes server) datas))
      ≡ before
        ++ file_events fp server.username
            (dest_name env ctx pdu)
            (total_msg_size pdu)
            (first_bytes pdu)
            datas
same_events server before fp pdu datas v ds room env ctx =
    let f = pdu_bytes server pdu in
    let go = λ (s n : List ℕ) (z : ℕ) (b : List ℕ) (l : List (List ℕ)).
      before ++ file_events fp s n z b l in
    let stored = map file_data (map (chunk_bytes server) datas) in
    let name_of = λ (o : List ℕ).
      make_unique_filename (env.access ctx.events) (sanitize_filename (c_string o))
        (optdata_size + 1) in
    let to = dest_name env ctx pdu in
    ap (λ s. go s (dest_name env ctx f) (total_msg_size f) (first_bytes f) stored)
      (pdu_from server pdu room v)
    ∙ ap (λ o. go server.username (name_of o) (total_msg_size f) (first_bytes f) stored)
        (pdu_optional server pdu room)
    ∙ ap (λ z. go server.username to z (first_bytes f) stored) (pdu_size server pdu room)
    ∙ ap (λ b. go server.username to (total_msg_size pdu) b stored) (pdu_first server pdu room)
    ∙ ap (go server.username to (total_msg_size pdu) (first_bytes pdu)) (datas-eq server datas ds)

-- The PDU of a file and then its chunks, at least one, each with some data, as the server relays them
-- for a sender whose name fits its field, reach the client's empty buffer in any pieces. Where the
-- PDU has the mark and is whole, the chunks have the rest of the data, and the client can take the
-- file (none is on the way from that sender, a slot is free, and fopen gives a stream), it writes
-- the data of the PDU and then that of every chunk, in order, to one new stream under the name that
-- it chose, closes the stream, shows the sender's name, and has an empty buffer again.
pub relayed-Delivered :
    (server : Server) (env : Outside) (ctx : ClientCtx) (pdu bytes : List ℕ)
    (datas pieces : List (List ℕ))
    → IsName server.username
    → hdr_mark pdu ≡ pdu_sync_hdr_mark
    → msg_type pdu ≡ mt_file
    → length pdu ≡ lwmp_hdr_size + wire_payload pdu
    → total_msg_size pdu < 2 ^ 64
    → IsData bytes
    → All IsData datas
    → wire_payload pdu + length (concat (bytes ∷ datas)) ≡ total_msg_size pdu
    → CanStore env ctx (pdu_bytes server pdu)
    → concat pieces ≡ concat (pdu_bytes server pdu ∷ map (chunk_bytes server) (bytes ∷ datas))
    → Returns
        (λ c'.
          (c'.events
            ≡ ctx.events
              ++ file_events ctx.opened server.username
                  (dest_name env ctx pdu)
                  (total_msg_size pdu)
                  (first_bytes pdu)
                  (bytes ∷ datas))
          × (c'.recv_buf ≡ []))
        (feed env (with_buf [] ctx) pieces)
relayed-Delivered server env ctx pdu bytes datas pieces v mark file whole small d ds total can cut =
    let room : lwmp_hdr_size ≤ length pdu = omega arith in
    let f = pdu_bytes server pdu in
    let from = pdu_from server pdu room v in
    let size = pdu_size server pdu room in
    let wire = pdu_wire server pdu room in
    let len = length-pdu_bytes server pdu room in
    let first = pdu_first server pdu room in
    let chunks = map (chunk_bytes server) datas in
    let w = wire_file pdu file (omega (arith, d.full, length-append bytes (concat datas))) in
    let length_first : length (first_bytes f) ≡ wire_payload pdu = omega (
      arith,
      wire,
      len,
      length-take (wire_payload f) (drop lwmp_hdr_size f),
      length-drop lwmp_hdr_size f,
    ) in
    let p : IsPdu f = record {
      marked = pdu_mark server pdu room ∙ mark;
      intact = pdu_intact server pdu room;
      whole = omega (arith, wire, len);
      fits = omega (arith, len);
      not_empty = inr (omega (arith, wire));
    } in
    let ps = chunks_from server (bytes ∷ datas) v (d, ds) in
    let (c', run, s) =
      feed-Stored env ctx f (chunk_bytes server bytes) chunks pieces p
        (pdu_type server pdu room ∙ file) can (omega (arith, length_first))
        (subst (λ n. ChunkFrom n (chunk_bytes server bytes)) (sym from) ps.0)
        (subst (λ n. All (ChunkFrom n) chunks) (sym from) ps.1)
        (omega (arith, length_first, size, length_all-eq server (bytes ∷ datas) (d, ds)))
        (omega (arith, size)) cut in
    (
      c',
      run,
      (
        s.done_events
            ∙ same_events server ctx.events ctx.opened pdu (bytes ∷ datas) v (d, ds) room env ctx,
        s.drained,
      ),
    )
