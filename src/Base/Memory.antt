-- ===== src/Base/Memory.antt =====
-- Byte memory: a buffer is the list of its bytes, `memcpy` writes a list of bytes at an offset, and
-- the packed structs of the wire format are read and written as slices of it. Multi-byte fields
-- are big-endian on the wire (htonl, htons, htobe64).
use Prim.Native.Nat.{ℕ, zero, suc, ◌+◌, ◌*◌, ◌/◌, ◌%◌, ◌^◌, ◌≤◌, ◌<◌}
use mathlib.Core.Path.{◌≡◌, refl, sym, ap, ◌∙◌}
use mathlib.Core.Logic.{◌⊎◌, inl, inr}
use mathlib.Core.List.{List, [], ◌∷◌, ◌++◌}
use native.Mathlib.Omega.{arith}
use lwmsg.Base.Lists.{
  length, take, drop, length-take, length-drop, drop-append, take-append, append-take-drop,
}

-- `memcpy(m + off, bs, length bs)`; bytes that would fall past the end of `m` are not written.
unfoldable pub write : List ℕ → ℕ → List ℕ → List ℕ
write [] off bs = []
write (x ∷ m) (suc off) bs = x ∷ write m off bs
write (x ∷ m) zero [] = x ∷ m
write (x ∷ m) zero (b ∷ bs) = b ∷ write m zero bs

-- The `n` bytes of `m` from `off` on.
unfoldable pub slice : List ℕ → ℕ → ℕ → List ℕ
slice m off n = take n (drop off m)

pub length-write : (m : List ℕ) (off : ℕ) (bs : List ℕ) → length (write m off bs) ≡ length m
unfolding write
length-write [] off bs = refl
length-write (x ∷ m) (suc off) bs = ap suc (length-write m off bs)
length-write (x ∷ m) zero [] = refl
length-write (x ∷ m) zero (b ∷ bs) = ap suc (length-write m zero bs)

pub length-slice : (m : List ℕ) (off n : ℕ) → off + n ≤ length m → length (slice m off n) ≡ n
unfolding slice
length-slice m off n h = omega (arith, length-take n (drop off m), length-drop off m)

-- What was written is read back.
pub slice-write_self :
    (m : List ℕ) (off : ℕ) (bs : List ℕ) (n : ℕ)
    → length bs ≡ n
    → off + n ≤ length m
    → slice (write m off bs) off n ≡ bs
unfolding slice write
slice-write_self [] (suc off) [] n e h = absurd (omega arith)
slice-write_self [] zero [] zero e h = refl
slice-write_self [] zero [] (suc n) e h = absurd (omega arith)
slice-write_self [] off (b ∷ bs) n e h = absurd (omega arith)
slice-write_self (x ∷ m) (suc off) bs n e h = slice-write_self m off bs n e (omega arith)
slice-write_self (x ∷ m) zero [] zero e h = refl
slice-write_self (x ∷ m) zero [] (suc n) e h = absurd (omega arith)
slice-write_self (x ∷ m) zero (b ∷ bs) zero e h = absurd (omega arith)
slice-write_self (x ∷ m) zero (b ∷ bs) (suc n) e h =
    ap (◌∷◌ b) (slice-write_self m zero bs n (omega arith) (omega arith))

-- A write past the slice does not change it.
pub slice-write_before :
    (m : List ℕ) (off : ℕ) (bs : List ℕ) (o n : ℕ)
    → o + n ≤ off
    → slice (write m off bs) o n ≡ slice m o n
unfolding slice write
slice-write_before [] off bs o n h = refl
slice-write_before (x ∷ m) zero [] o n h = refl
slice-write_before (x ∷ m) zero (b ∷ bs) zero zero h = refl
slice-write_before (x ∷ m) zero (b ∷ bs) zero (suc n) h = absurd (omega arith)
slice-write_before (x ∷ m) zero (b ∷ bs) (suc o) n h = absurd (omega arith)
slice-write_before (x ∷ m) (suc off) bs zero zero h = refl
slice-write_before (x ∷ m) (suc off) bs zero (suc n) h =
    ap (◌∷◌ x) (slice-write_before m off bs zero n (omega arith))
slice-write_before (x ∷ m) (suc off) bs (suc o) n h = slice-write_before m off bs o n (omega arith)

-- A write that ends before the slice does not change it.
pub slice-write_after :
    (m : List ℕ) (off : ℕ) (bs : List ℕ) (o n : ℕ)
    → off + length bs ≤ o
    → slice (write m off bs) o n ≡ slice m o n
unfolding slice write
slice-write_after [] off bs o n h = refl
slice-write_after (x ∷ m) zero [] o n h = refl
slice-write_after (x ∷ m) zero (b ∷ bs) zero n h = absurd (omega arith)
slice-write_after (x ∷ m) zero (b ∷ bs) (suc o) n h = slice-write_after m zero bs o n (omega arith)
slice-write_after (x ∷ m) (suc off) bs zero n h = absurd (omega arith)
slice-write_after (x ∷ m) (suc off) bs (suc o) n h = slice-write_after m off bs o n (omega arith)

-- The number that big-endian bytes stand for.
be_from : ℕ → List ℕ → ℕ
be_from acc [] = acc
be_from acc (b ∷ bs) = be_from (acc * 256 + b) bs

unfoldable pub be_decode : List ℕ → ℕ
unfolding be_from
be_decode bs = be_from 0 bs

abbrev byte : ℕ → ℕ → ℕ
byte x k = x / 2 ^ (8 * k) % 256

-- The bytes of a field that htons, htonl and htobe64 lay out.
unfoldable pub be16 : ℕ → List ℕ
be16 x = byte x 1 ∷ byte x 0 ∷ []

unfoldable pub be32 : ℕ → List ℕ
be32 x = byte x 3 ∷ byte x 2 ∷ byte x 1 ∷ byte x 0 ∷ []

unfoldable pub be64 : ℕ → List ℕ
be64 x = byte x 7 ∷ byte x 6 ∷ byte x 5 ∷ byte x 4 ∷ byte x 3 ∷ byte x 2 ∷ byte x 1 ∷ byte x 0 ∷ []

pub be_decode-be16 : (x : ℕ) → x < 2 ^ 16 → be_decode (be16 x) ≡ x
unfolding be_decode be16
be_decode-be16 x h = omega arith

pub be_decode-be32 : (x : ℕ) → x < 2 ^ 32 → be_decode (be32 x) ≡ x
unfolding be_decode be32
be_decode-be32 x h = omega arith

pub be_decode-be64 : (x : ℕ) → x < 2 ^ 64 → be_decode (be64 x) ≡ x
unfolding be_decode be64
be_decode-be64 x h = omega arith

pub length-be16 : (x : ℕ) → length (be16 x) ≡ 2
unfolding be16
length-be16 x = refl

pub length-be32 : (x : ℕ) → length (be32 x) ≡ 4
unfolding be32
length-be32 x = refl

pub length-be64 : (x : ℕ) → length (be64 x) ≡ 8
unfolding be64
length-be64 x = refl

pub write-nil : (m : List ℕ) (off : ℕ) → write m off [] ≡ m
unfolding write
write-nil [] off = refl
write-nil (x ∷ m) (suc off) = ap (◌∷◌ x) (write-nil m off)
write-nil (x ∷ m) zero = refl

-- Two writes that meet are one write of both pieces.
pub write-write :
    (m : List ℕ) (off k : ℕ) (xs ys : List ℕ)
    → k ≡ off + length xs
    → write (write m off xs) k ys ≡ write m off (xs ++ ys)
unfolding write
write-write [] off k xs ys e = refl
write-write (x ∷ m) (suc off) zero xs ys e = absurd (omega arith)
write-write (x ∷ m) (suc off) (suc k) xs ys e = ap (◌∷◌ x) (write-write m off k xs ys (omega arith))
write-write (x ∷ m) zero zero [] ys e = refl
write-write (x ∷ m) zero (suc k) [] ys e = absurd (omega arith)
write-write (x ∷ m) zero zero (b ∷ xs) ys e = absurd (omega arith)
write-write (x ∷ m) zero (suc k) (b ∷ xs) ys e =
    ap (◌∷◌ b) (write-write m zero k xs ys (omega arith))

-- A slice that a write does not touch.
pub slice-write_apart :
    (m : List ℕ) (off : ℕ) (bs : List ℕ) (o n : ℕ)
    → (o + n ≤ off) ⊎ (off + length bs ≤ o)
    → slice (write m off bs) o n ≡ slice m o n
slice-write_apart m off bs o n (inl h) = slice-write_before m off bs o n h
slice-write_apart m off bs o n (inr h) = slice-write_after m off bs o n h

pub be_decode-byte : (x : ℕ) → be_decode (x ∷ []) ≡ x
unfolding be_decode
be_decode-byte x = omega arith

-- What follows the slice does not matter.
pub slice-append :
    (m bs : List ℕ) (off n : ℕ) → off + n ≤ length m → slice (m ++ bs) off n ≡ slice m off n
unfolding slice
slice-append m bs off n h =
    ap (take n) (drop-append off m bs (omega arith))
    ∙ take-append n (drop off m) bs (omega (arith, length-drop off m))

-- A slice of the first bytes is one of all.
pub slice-take :
    (m : List ℕ) (k off n : ℕ) → off + n ≤ k → k ≤ length m → slice (take k m) off n ≡ slice m off n
slice-take m k off n h le =
    sym (slice-append (take k m) (drop k m) off n (omega (arith, length-take k m)))
    ∙ ap (λ l. slice l off n) (append-take-drop k m)
