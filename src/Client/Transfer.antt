-- ===== src/Client/Transfer.antt =====
-- A file that reaches the client of client/clrecv.c in a first PDU and chunks.
use mathlib.Core.List.{append_assoc}
use lwmsg.Base.{
  ℕ, zero, suc, ◌+◌, ◌%◌, ◌^◌, ◌<◌, ◌≡◌, refl, ap, ◌∙◌, arith, Bool, true, false, ◌&&◌, none, some,
  List, [], ◌∷◌, ◌++◌, ltb, leb, ◌==◌, Option-cases, inl, inr, length, set, All, map,
}
use lwmsg.Lwmp.{pdu_sync_hdr_mark, hdr_mark, chunk_size, chunk_subject, chunk_payload}
use lwmsg.Base.Memory.{length-slice}
use lwmsg.Session.Inbound.{c_string}
use lwmsg.Client.{ClientCtx, FileTransfer, Outside, Event, fwrite, fclose, received_file, str_eq}
use lwmsg.Client.Receive.{find_index, find_transfer}
use lwmsg.Client.Parse.{append_chunk, chunk_found, process_chunk}
use lwmsg.Client.Frame.{IsChunk, receive}
use lwmsg.Client.Steps.{then_lem, else_lem}
use lwmsg.Client.Stream.{receive_all}

pub str_eq_refl : (s : List ℕ) → str_eq s s ≡ true
unfolding str_eq
str_eq_refl [] = refl
str_eq_refl (x ∷ s) = ground (arith, str_eq_refl s)

set-set : (ts : List FileTransfer) (i : ℕ) (a b : FileTransfer) → set (set ts i a) i b ≡ set ts i b
set-set [] i a b = refl
set-set (x ∷ ts) zero a b = refl
set-set (x ∷ ts) (suc i) a b = ap (◌∷◌ x) (set-set ts i a b)

module _ (test : FileTransfer → Bool) where
  pub find_index-lt :
      (ts : List FileTransfer) (i : ℕ) (ft : FileTransfer)
      → find_index test ts ≡ some (i, ft)
      → i < length ts
  unfolding find_index
  find_index-lt [] i ft e = ground arith
  find_index-lt (x ∷ ts) i ft e = elim (Option-cases (find_index test ts)) [
    | inl q ↦ ground (arith, q)
    | inr ((j, g), q) ↦ let ih = find_index-lt ts j g q in ground (arith, q)
  ]

  -- The only transfer that passes is the one that was put there.
  find_index-set :
      (ts : List FileTransfer) (i : ℕ) (ft : FileTransfer)
      → find_index test ts ≡ none
      → i < length ts
      → test ft ≡ true
      → find_index test (set ts i ft) ≡ some (i, ft)
  unfolding find_index
  find_index-set [] i ft e h p = absurd (omega arith)
  find_index-set (x ∷ ts) zero ft e h p = ground arith
  find_index-set (x ∷ ts) (suc i) ft e h p = ground (arith, find_index-set ts i ft)

  pub find_index-set-none :
      (ts : List FileTransfer) (i : ℕ) (ft : FileTransfer)
      → find_index test ts ≡ none
      → test ft ≡ false
      → find_index test (set ts i ft) ≡ none
  unfolding find_index
  find_index-set-none [] i ft e p = refl
  find_index-set-none (x ∷ ts) zero ft e p = ground arith
  find_index-set-none (x ∷ ts) (suc i) ft e p = ground (arith, find_index-set-none ts i ft)

-- The transfer once `n` bytes are stored.
abbrev pub going : FileTransfer → ℕ → ℕ → ℕ → List ℕ → List ℕ → FileTransfer
going ft fp size n sender name = record ft {
  active = true;
  fp = some fp;
  expected_size = size;
  received = n;
  sender = sender;
  filename = name;
}

abbrev pub ended : FileTransfer → FileTransfer
ended ft = record ft { fp = none; active = false }

-- The client with such a transfer in the slot `i`, after the events `ev`.
abbrev pub at_bytes : ClientCtx → ℕ → FileTransfer → List Event → ClientCtx
at_bytes ctx i v ev = record ctx { transfers = set ctx.transfers i v; events = ev }

-- The file data in a chunk, and a chunk of the given sender with some.
abbrev pub file_data : List ℕ → List ℕ
file_data f = chunk_payload f (chunk_size f)

pub record ChunkFrom (sender f : List ℕ) : Type 0 where
  pub chunk : IsChunk f
  pub from : c_string (chunk_subject f) ≡ sender
  pub full : 0 < chunk_size f

abbrev pub length_all : List (List ℕ) → ℕ
length_all [] = 0
length_all (f ∷ chunks) = length (file_data f) + length_all chunks

pub length-file_data :
    {sender : List ℕ} (f : List ℕ) → ChunkFrom sender f → 0 < length (file_data f)
unfolding chunk_payload
length-file_data f p = omega (arith, p.full, p.chunk.whole, length-slice f 38 (chunk_size f))

module _ (ctx : ClientCtx) (sender : List ℕ) (i : ℕ) (ft : FileTransfer) (fp size : ℕ)
    (name : List ℕ) (idle : find_transfer ctx sender ≡ none) (slot : i < length ctx.transfers)
    (small : size < 2 ^ 64) where
  abbrev step_at : ℕ → List Event → ClientCtx
  step_at n ev = at_bytes ctx i (going ft fp size n sender name) ev

  found_going :
      (n : ℕ) (ev : List Event)
      → find_transfer (step_at n ev) sender ≡ some (i, going ft fp size n sender name)
  unfolding find_transfer
  found_going n ev =
      find_index-set (λ f. f.active && str_eq f.sender sender) ctx.transfers i
        (going ft fp size n sender name) idle slot (str_eq_refl sender)

  more_bytes :
      (n : ℕ) (ev : List Event) (payload : List ℕ)
      → n + length payload < size
      → process_chunk (step_at n ev) sender payload
        ≡ step_at (n + length payload) (ev ++ fwrite fp payload ∷ [])
  unfolding process_chunk chunk_found append_chunk
  more_bytes n ev payload h =
      let total : (n + length payload) % 2 ^ 64 ≡ n + length payload = omega arith in
      ap (chunk_found (step_at n ev) payload) (found_going n ev)
      ∙ else_lem (leb size ((n + length payload) % 2 ^ 64)) _ _ (rw total (ground arith))
      ∙ ap
          (λ (l : List FileTransfer). record ctx {
            transfers = l;
            events = ev ++ fwrite fp payload ∷ [];
          })
          (set-set ctx.transfers i (going ft fp size n sender name)
            (going ft fp size ((n + length payload) % 2 ^ 64) sender name))
      ∙ ap (λ k. step_at k (ev ++ fwrite fp payload ∷ [])) total

  last_bytes :
      (n : ℕ) (ev : List Event) (payload : List ℕ)
      → n + length payload ≡ size
      → process_chunk (step_at n ev) sender payload
        ≡ at_bytes ctx i (ended (going ft fp size size sender name)) (
            ((ev ++ fwrite fp payload ∷ []) ++ fclose fp ∷ [])
            ++ received_file sender name size ∷ [])
  unfolding process_chunk chunk_found append_chunk
  last_bytes n ev payload h =
      let total : (n + length payload) % 2 ^ 64 ≡ size = omega arith in
      ap (chunk_found (step_at n ev) payload) (found_going n ev)
      ∙ then_lem (leb size ((n + length payload) % 2 ^ 64)) _ _ (rw total (ground arith))
      ∙ ap
          (λ (l : List FileTransfer). record ctx {
            transfers = l;
            events =
                ((ev ++ fwrite fp payload ∷ []) ++ fclose fp ∷ [])
                ++ received_file sender name size ∷ [];
          })
          (set-set ctx.transfers i (going ft fp size n sender name)
            (ended (going ft fp size ((n + length payload) % 2 ^ 64) sender name)))
      ∙ ap
          (λ k. at_bytes ctx i (ended (going ft fp size k sender name)) (
            ((ev ++ fwrite fp payload ∷ []) ++ fclose fp ∷ [])
            ++ received_file sender name size ∷ []))
          total

  -- What is done with the chunks that are left, whose data is `payloads`.
  abbrev pub stored : List (List ℕ) → List Event
  stored payloads = map (fwrite fp) payloads ++ fclose fp ∷ received_file sender name size ∷ []

  receive_chunk-eq :
      (env : Outside) (c : ClientCtx) (f : List ℕ)
      → ChunkFrom sender f
      → receive env c f ≡ process_chunk c sender (file_data f)
  unfolding receive
  receive_chunk-eq env c f p =
      else_lem (hdr_mark f == pdu_sync_hdr_mark) _ _ (ground (arith, p.chunk.marked))
      ∙ then_lem (ltb 0 (chunk_size f)) _ _ (ground (arith, p.full))
      ∙ ap (λ s. process_chunk c s (file_data f)) p.from

  pub chunks_run :
      (env : Outside) (n : ℕ) (ev : List Event) (f : List ℕ) (chunks : List (List ℕ))
      → ChunkFrom sender f
      → All (ChunkFrom sender) chunks
      → n + length (file_data f) + length_all chunks ≡ size
      → receive_all env (step_at n ev) (f ∷ chunks)
        ≡ at_bytes ctx i
            (ended (going ft fp size size sender name))
            (ev ++ stored (map file_data (f ∷ chunks)))
  chunks_run env n ev f [] p ps h =
      receive_chunk-eq env (step_at n ev) f p
      ∙ last_bytes n ev (file_data f) (omega arith)
      ∙ ap (at_bytes ctx i (ended (going ft fp size size sender name))) (
          append_assoc (ev ++ fwrite fp (file_data f) ∷ []) (fclose fp ∷ [])
            (received_file sender name size ∷ [])
          ∙ append_assoc ev (fwrite fp (file_data f) ∷ [])
              (fclose fp ∷ received_file sender name size ∷ []))
  chunks_run env n ev f (g ∷ chunks) p (q, ps) h =
      ap (λ c. receive_all env c (g ∷ chunks))
        (receive_chunk-eq env (step_at n ev) f p
          ∙ more_bytes n ev (file_data f) (omega (arith, length-file_data g q)))
      ∙ chunks_run env (n + length (file_data f)) (ev ++ fwrite fp (file_data f) ∷ []) g chunks q ps
          (omega arith)
      ∙ ap (at_bytes ctx i (ended (going ft fp size size sender name)))
          (append_assoc ev (fwrite fp (file_data f) ∷ []) (stored (map file_data (g ∷ chunks))))
