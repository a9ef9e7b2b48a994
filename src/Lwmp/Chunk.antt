-- ===== src/Lwmp/Chunk.antt =====
-- lwmp_prepare_chunk: the chunk carries what it was given, cut to the size of a chunk.
use lwmsg.Base.{
  ℕ, ◌+◌, ◌-◌, ◌≤◌, ◌≡◌, ap, ◌∙◌, List, arith, min, length, take, replicate, length-append,
  length-take, length-replicate, ltb, if◌then◌else◌,
}
use lwmsg.Base.Memory.{
  write, be_decode, be16, be32, length-write, slice-write_self, slice-write_before,
  slice-write_after, be_decode-be16, be_decode-be32, length-be16, length-be32,
}
use lwmsg.Lwmp.{
  lwmp_prepare_chunk, ch_hdr_mark, chunk_size, chunk_subject, chunk_payload, chunk_sync_hdr_mark,
  lwmp_chunk_buf_size, lwmp_chunk_hdr_size, uname_size, strncpy,
}

pub length-strncpy : (src : List ℕ) (n : ℕ) → length (strncpy src n) ≡ n
unfolding strncpy
length-strncpy src n = omega (
  arith,
  length-append (take n src) (replicate (n - length src) 0),
  length-take n src,
  length-replicate {A = ℕ} (n - length src) 0,
)

-- What a receiver finds in a chunk of the `n` bytes at `bytes`.
pub record Carries (lwc : List ℕ) (n : ℕ) (subject bytes : List ℕ) : Type 0 where
  pub marked : ch_hdr_mark lwc ≡ chunk_sync_hdr_mark
  pub sized : chunk_size lwc ≡ n
  pub from : chunk_subject lwc ≡ strncpy subject uname_size
  pub payload : chunk_payload lwc n ≡ take n bytes

-- In a buffer with room for the header and the data, lwmp_prepare_chunk lays out the mark, the size
-- (cut to the space of a chunk), the padded name and that many bytes of the data, where the data
-- has as many.
pub prepare_chunk-Carries :
    (lwc : List ℕ) (size : ℕ) (subject bytes : List ℕ)
    → lwmp_chunk_hdr_size + min size lwmp_chunk_buf_size ≤ length lwc
    → min size lwmp_chunk_buf_size ≤ length bytes
    → Carries
        (lwmp_prepare_chunk lwc size subject bytes)
        (min size lwmp_chunk_buf_size)
        subject
        bytes
unfolding lwmp_prepare_chunk ch_hdr_mark chunk_size chunk_subject chunk_payload
prepare_chunk-Carries lwc size subject bytes room given =
    let n = min size lwmp_chunk_buf_size in
    let cut : (if ltb lwmp_chunk_buf_size size then lwmp_chunk_buf_size else size) ≡ n =
      ground arith in
    let mark = be32 chunk_sync_hdr_mark in
    let name = strncpy subject uname_size in
    let m₁ = write lwc 0 mark in
    let m₂ = write m₁ 6 name in
    let m₃ = write m₂ 4 (be16 n) in
    let l₁ = length-write lwc 0 mark in
    let l₂ = length-write m₁ 6 name in
    let l₃ = length-write m₂ 4 (be16 n) in
    let body = take n bytes in
    let full = length-strncpy subject uname_size in
    rw cut (record {
      marked =
          ap be_decode (
            slice-write_before m₃ 38 body 0 4 (omega arith)
            ∙ slice-write_before m₂ 4 (be16 n) 0 4 (omega arith)
            ∙ slice-write_before m₁ 6 name 0 4 (omega arith)
            ∙ slice-write_self lwc 0 mark 4 (length-be32 chunk_sync_hdr_mark) (omega arith))
          ∙ be_decode-be32 chunk_sync_hdr_mark (omega arith);
      sized =
          ap be_decode (
            slice-write_before m₃ 38 body 4 2 (omega arith)
            ∙ slice-write_self m₂ 4 (be16 n) 2 (length-be16 n) (omega arith))
          ∙ be_decode-be16 n (omega arith);
      from =
          slice-write_before m₃ 38 body 6 uname_size (omega arith)
          ∙ slice-write_after m₂ 4 (be16 n) 6 uname_size (omega (arith, length-be16 n))
          ∙ slice-write_self m₁ 6 name uname_size full (omega arith);
      payload = slice-write_self m₃ 38 body n (omega (arith, length-take n bytes)) (omega arith);
    })
