-- ===== src/Client/Relayed.antt =====
-- A file that the server of server/worker.c relays, and the client of client/clrecv.c that gets it.
use lwmsg.Base.{
  ℕ, zero, suc, ◌+◌, ◌-◌, ◌≤◌, ◌<◌, ◌≡◌, ◌≢◌, refl, sym, ap, subst, ◌∙◌, arith, min, List, [], ◌∷◌,
  ◌++◌, if◌then◌else◌, ltb, length, set, take, replicate, All, length-replicate, take_all,
}
use lwmsg.Base.Memory.{write, be16, be32, length-write}
use lwmsg.Lwmp.{
  lwmp_chunk_hdr_size, lwmp_chunk_buf_size, uname_size, hdr_mark, strncpy, lwmp_prepare_chunk,
  chunk_payload, ch_hdr_mark,
}
use lwmsg.Lwmp.Chunk.{Carries, prepare_chunk-Carries}
use lwmsg.Session.Message.{xmalloc}
use lwmsg.Session.Inbound.{Server, c_string, relayed_chunk}
use lwmsg.Client.Transfer.{file_data, ChunkFrom}

-- A user name as the server keeps it.
pub record IsName (name : List ℕ) : Type 0 where
  pub letters : All (λ b. b ≢ 0) name
  pub short : length name ≤ uname_size

pub c_string-padded : (s : List ℕ) (n : ℕ) → All (λ b. b ≢ 0) s → c_string (s ++ replicate n 0) ≡ s
unfolding c_string
c_string-padded [] zero h = refl
c_string-padded [] (suc n) h = refl
c_string-padded (b ∷ s) n h = ground (arith, c_string-padded s n h.1)

pub c_string-strncpy : (name : List ℕ) → IsName name → c_string (strncpy name uname_size) ≡ name
unfolding strncpy
c_string-strncpy name v =
    ap (λ s. c_string (s ++ replicate (uname_size - length name) 0))
      (take_all uname_size name v.short)
    ∙ c_string-padded name (uname_size - length name) v.letters

-- The server closes the name in the field of a PDU, which was closed where the name is shorter.
c_string-closed :
    (s : List ℕ) (n i : ℕ)
    → All (λ b. b ≢ 0) s
    → length s ≤ i
    → c_string (set (s ++ replicate n 0) i 0) ≡ s
unfolding c_string
c_string-closed [] zero i h le = refl
c_string-closed [] (suc n) zero h le = refl
c_string-closed [] (suc n) (suc i) h le = refl
c_string-closed (b ∷ s) n zero h le = absurd (omega arith)
c_string-closed (b ∷ s) n (suc i) h le = ground (arith, c_string-closed s n i h.1 (omega arith))

pub c_string-recipient :
    (name : List ℕ)
    → All (λ b. b ≢ 0) name
    → length name < uname_size
    → c_string (set (strncpy name uname_size) (uname_size - 1) 0) ≡ name
unfolding strncpy
c_string-recipient name letters short =
    ap (λ s. c_string (set (s ++ replicate (uname_size - length name) 0) (uname_size - 1) 0))
      (take_all uname_size name (omega arith))
    ∙ c_string-closed name (uname_size - length name) (uname_size - 1) letters (omega arith)

length-prepare_chunk :
    (lwc : List ℕ) (size : ℕ) (subject bytes : List ℕ)
    → length (lwmp_prepare_chunk lwc size subject bytes) ≡ length lwc
unfolding lwmp_prepare_chunk
length-prepare_chunk lwc size subject bytes =
    let n = if ltb lwmp_chunk_buf_size size then lwmp_chunk_buf_size else size in
    let mark = be32 0x4FE2CD81 in
    let name = strncpy subject uname_size in
    length-write (write (write (write lwc 0 mark) 6 name) 4 (be16 n)) 38 (take n bytes)
    ∙ length-write (write (write lwc 0 mark) 6 name) 4 (be16 n)
    ∙ length-write (write lwc 0 mark) 6 name
    ∙ length-write lwc 0 mark

-- The data of a chunk that the server relays: some, and no more than a chunk holds.
pub record IsData (bytes : List ℕ) : Type 0 where
  pub full : 0 < length bytes
  pub fits : length bytes ≤ lwmp_chunk_buf_size

abbrev pub chunk_bytes : Server → List ℕ → List ℕ
chunk_bytes server bytes = (relayed_chunk server bytes).buf

chunk-Carries :
    (server : Server) (bytes : List ℕ)
    → IsData bytes
    → Carries (chunk_bytes server bytes) (length bytes) server.username bytes
unfolding relayed_chunk
chunk-Carries server bytes d =
    let n = length bytes in
    let cut : min n lwmp_chunk_buf_size ≡ n = omega (arith, d.fits) in
    let room = length-replicate {A = ℕ} (lwmp_chunk_hdr_size + n) 0 in
    subst
      (λ k.
        Carries (lwmp_prepare_chunk (xmalloc (lwmp_chunk_hdr_size + n)) n server.username bytes) k
          server.username bytes)
      cut
      (prepare_chunk-Carries (xmalloc (lwmp_chunk_hdr_size + n)) n server.username bytes
        (omega (arith, cut, room)) (omega (arith, cut)))

pub chunk-ChunkFrom :
    (server : Server) (bytes : List ℕ)
    → IsName server.username
    → IsData bytes
    → ChunkFrom server.username (chunk_bytes server bytes)
unfolding relayed_chunk hdr_mark ch_hdr_mark
chunk-ChunkFrom server bytes v d =
    let c = chunk-Carries server bytes d in
    let n = length bytes in
    record {
      chunk = record {
        marked = c.marked;
        whole =
            length-prepare_chunk (xmalloc (lwmp_chunk_hdr_size + n)) n server.username bytes
            ∙ length-replicate {A = ℕ} (lwmp_chunk_hdr_size + n) 0
            ∙ ap (λ (k : ℕ). lwmp_chunk_hdr_size + k) (sym c.sized);
      };
      from = ap c_string c.from ∙ c_string-strncpy server.username v;
      full = omega (arith, c.sized, d.full);
    }

pub chunk-file_data :
    (server : Server) (bytes : List ℕ) → IsData bytes → file_data (chunk_bytes server bytes) ≡ bytes
chunk-file_data server bytes d =
    let c = chunk-Carries server bytes d in
    ap (chunk_payload (chunk_bytes server bytes)) c.sized
    ∙ c.payload
    ∙ take_all (length bytes) bytes (omega arith)
