-- ===== src/Lwmp/Resync.antt =====
-- lwmp_stream_resync: it ends, and finds the first place where a header can begin.
use lwmsg.Base.{
  ℕ, zero, suc, ◌≤◌, ◌<◌, ◌≡◌, refl, sym, ap, ◌∙◌, Bool, true, not, ◌&&◌, none, some, List, [], ◌∷◌,
  arith, leb, ◌==◌, if◌then◌else◌, length, set, Option-cases, inl, inr,
}
use native.Mathlib.Numerals.{add-one}
use lwmsg.Lwmp.{
  hdr_crc32, pdu_crc32, lwmp_hdr_size, starts_with_mark, memmem_mark, resync_loop,
  lwmp_stream_resync,
}

-- The buffer begins with the mark, and with a checksum that agrees where a whole header is there.
unfoldable pub is_candidate : List ℕ → Bool
is_candidate buf =
    starts_with_mark buf
    && not (leb lwmp_hdr_size (length buf) && not (hdr_crc32 buf == pdu_crc32 buf))

-- The rest of the buffer from the first such place on; nothing is left if there is none.
unfoldable pub first_candidate : List ℕ → List ℕ
unfolding is_candidate
first_candidate [] = []
first_candidate (x ∷ buf) = if is_candidate (x ∷ buf) then x ∷ buf else first_candidate buf

-- What memmem returns begins with the mark and is not longer, and no candidate stands before it.
memmem_mark-found :
    (buf found : List ℕ)
    → memmem_mark buf ≡ some found
    → (starts_with_mark found ≡ true)
      × (length found ≤ length buf)
      × (first_candidate buf ≡ first_candidate found)
unfolding memmem_mark first_candidate is_candidate
memmem_mark-found [] found e = ground arith
memmem_mark-found (x ∷ buf) found e = ground (arith, memmem_mark-found buf found)

memmem_mark-none : (buf : List ℕ) → memmem_mark buf ≡ none → first_candidate buf ≡ []
unfolding memmem_mark first_candidate is_candidate
memmem_mark-none [] e = refl
memmem_mark-none (x ∷ buf) e = ground (arith, memmem_mark-none buf)

memmem_mark-zero : (buf : List ℕ) → memmem_mark (0 ∷ buf) ≡ memmem_mark buf
unfolding memmem_mark starts_with_mark
memmem_mark-zero [] = refl
memmem_mark-zero (a ∷ []) = refl
memmem_mark-zero (a ∷ b ∷ []) = refl
memmem_mark-zero (a ∷ b ∷ c ∷ buf) = refl

-- The loop after a zeroed byte, for every shorter buffer.
abbrev RunsBelow : ℕ → ℕ → Type 0
RunsBelow fuel n = (t : List ℕ) → length t < n → resync_loop fuel (0 ∷ t) ≡ some (first_candidate t)

not-starts-nil : starts_with_mark [] ≡ true → ⊥
unfolding starts_with_mark
not-starts-nil e = cc

found_step :
    (fuel n : ℕ) (found : List ℕ)
    → RunsBelow fuel n
    → starts_with_mark found ≡ true
    → length found ≤ n
    → (if leb lwmp_hdr_size (length found) && not (hdr_crc32 found == pdu_crc32 found)
        then resync_loop fuel (set found 0 0)
        else some found)
      ≡ some (first_candidate found)
unfolding first_candidate is_candidate
found_step fuel n [] ih m h = absurd (not-starts-nil m)
found_step fuel n (x ∷ rest) ih m h = ground (arith, ih rest)

resync_step :
    (fuel : ℕ) (buf t : List ℕ)
    → memmem_mark buf ≡ memmem_mark t
    → RunsBelow fuel (length t)
    → resync_loop (suc fuel) buf ≡ some (first_candidate t)
unfolding resync_loop
resync_step fuel buf t same ih = elim (Option-cases (memmem_mark t)) [
  | inl e ↦ rw (same ∙ e, resync_loop) (ap some (sym (memmem_mark-none t e)))
  | inr (found, e) ↦
      let (m, le, eq) = memmem_mark-found t found e in
      rw (same ∙ e, eq, resync_loop) (found_step fuel (length t) found ih m le)
]

resync_loop-eq :
    (fuel : ℕ) (t : List ℕ) → length t < fuel → resync_loop fuel (0 ∷ t) ≡ some (first_candidate t)
resync_loop-eq zero t h = absurd (omega arith)
resync_loop-eq (suc fuel) t h =
    resync_step fuel (0 ∷ t) t (memmem_mark-zero t) (λ u lt. resync_loop-eq fuel u (omega arith))

-- lwmp_stream_resync ends on every buffer, and leaves it at the first place from which it holds the
-- mark and, where a whole header is there, a checksum that agrees; it returns 0 if there is none.
pub stream_resync-eq-first_candidate :
    (buf : List ℕ) → lwmp_stream_resync buf ≡ some (first_candidate buf)
unfolding lwmp_stream_resync
stream_resync-eq-first_candidate buf =
    rw (add-one (length buf)) (resync_step (length buf) buf buf refl (resync_loop-eq (length buf)))
