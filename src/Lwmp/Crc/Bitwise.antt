-- ===== src/Lwmp/Crc/Bitwise.antt =====
-- The table-driven crc32 against the polynomial division that it stands for: CRC-32 with the
-- polynomial 0x04C11DB7, most significant bit first, as in BZIP2.
use lwmsg.Base.{
  ℕ, zero, suc, ◌*◌, ◌/◌, ◌%◌, ◌^◌, ◌<◌, ◌≡◌, refl, sym, ap, ◌∙◌, true, List, [], ◌∷◌, arith,
  bit_xor, get_or, leb, ◌==◌, ==_iff, if◌then◌else◌, Bool-cases, inl, inr, bit_xor_step,
  bit_xor_comm, bit_xor_assoc, bit_xor-zero, zero-bit_xor, div-bit_xor, mod-bit_xor, bit_xor-lt,
  All, all_below, all_below_sound,
}
use native.Mathlib.Nat.{pow-suc, one-le-pow}
use lwmsg.Lwmp.Crc.{crc32_table, crc32_step, crc32_loop, crc32}

-- Shifts one bit out of the register, and subtracts the polynomial where the bit was set.
unfoldable pub shift_bit : ℕ → ℕ
shift_bit x = if leb (2 ^ 31) x then bit_xor (x * 2 % 2 ^ 32) 0x04C11DB7 else x * 2 % 2 ^ 32

unfoldable pub shift_bits : ℕ → ℕ → ℕ
shift_bits zero x = x
shift_bits (suc n) x = shift_bits n (shift_bit x)

unfoldable pub bitwise_loop : ℕ → List ℕ → ℕ
bitwise_loop crc [] = crc
bitwise_loop crc (b ∷ bs) = bitwise_loop (shift_bits 8 (bit_xor crc (b * 2 ^ 24))) bs

-- The checksum without a table.
unfoldable pub crc32_bitwise : List ℕ → ℕ
crc32_bitwise bs = bit_xor (bitwise_loop 0xFFFFFFFF bs) 0xFFFFFFFF

shift_bit-lt : (x : ℕ) → shift_bit x < 2 ^ 32
unfolding shift_bit
shift_bit-lt x = elim (Bool-cases (leb (2 ^ 31) x)) [
  | inl e ↦ rw e (bit_xor-lt 32 (x * 2 % 2 ^ 32) 0x04C11DB7 (omega arith) (omega arith))
  | inr e ↦ rw e (omega arith)
]

double-bit_xor : (a b : ℕ) → bit_xor a b * 2 ≡ bit_xor (a * 2) (b * 2)
double-bit_xor a b = omega (
  arith,
  bit_xor_step (a * 2) (b * 2),
  ap (λ t. bit_xor t (b * 2 / 2)) (let e : a * 2 / 2 ≡ a = omega arith in e),
  ap (λ t. bit_xor a t) (let e : b * 2 / 2 ≡ b = omega arith in e),
)

module _ (x y : ℕ) (low : y < 2 ^ 31) where
  top-bit_xor : bit_xor x y / 2 ^ 31 ≡ x / 2 ^ 31
  top-bit_xor =
      let none_set : y / 2 ^ 31 ≡ 0 = omega arith in
      div-bit_xor 31 x y ∙ ap (bit_xor (x / 2 ^ 31)) none_set ∙ bit_xor-zero (x / 2 ^ 31)

  shl-bit_xor : bit_xor x y * 2 % 2 ^ 32 ≡ bit_xor (x * 2 % 2 ^ 32) (y * 2)
  shl-bit_xor =
      let shifted : (z : ℕ) → z * 2 % 2 ^ 32 ≡ z % 2 ^ 31 * 2 = λ z. omega arith in
      let fits : y % 2 ^ 31 ≡ y = omega arith in
      shifted (bit_xor x y)
      ∙ ap (λ t. t * 2) (mod-bit_xor 31 x y ∙ ap (bit_xor (x % 2 ^ 31)) fits)
      ∙ double-bit_xor (x % 2 ^ 31) y
      ∙ ap (λ t. bit_xor t (y * 2)) (sym (shifted x))

  -- A pattern below the top bit passes through a shift unchanged.
  shift_bit-bit_xor : shift_bit (bit_xor x y) ≡ bit_xor (shift_bit x) (y * 2)
  unfolding shift_bit
  shift_bit-bit_xor = elim (Bool-cases (leb (2 ^ 31) x)) [
    | inl e ↦
        rw (same_test, e)
          (ap (λ t. bit_xor t poly) shl-bit_xor
            ∙ bit_xor_assoc (x * 2 % 2 ^ 32) (y * 2) poly
            ∙ ap (bit_xor (x * 2 % 2 ^ 32)) (bit_xor_comm (y * 2) poly)
            ∙ sym (bit_xor_assoc (x * 2 % 2 ^ 32) poly (y * 2)))
    | inr e ↦ rw (same_test, e) shl-bit_xor
  ]
    where
      poly : ℕ
      poly = 0x04C11DB7

      same_test : leb (2 ^ 31) (bit_xor x y) ≡ leb (2 ^ 31) x
      same_test = ground (arith, top-bit_xor)

shift_bits-bit_xor :
    (n x y : ℕ)
    → y * 2 ^ n < 2 ^ 32
    → 0 < n
    → shift_bits n (bit_xor x y) ≡ bit_xor (shift_bits n x) (y * 2 ^ n)
unfolding shift_bits
shift_bits-bit_xor zero x y h p = absurd (omega arith)
shift_bits-bit_xor (suc zero) x y h p = shift_bit-bit_xor x y (omega arith)
shift_bits-bit_xor (suc (suc n)) x y h p =
    let doubled : y * 2 * 2 ^ suc n ≡ y * 2 ^ suc (suc n) =
      omega (arith, ap (λ t. y * t) (pow-suc 2 (suc n))) in
    let low : y < 2 ^ 31 = grind (arith, one-le-pow (suc n) 2, doubled) in
    rw (shift_bit-bit_xor x y low, ← doubled)
      (shift_bits-bit_xor (suc n) (shift_bit x) (y * 2) (omega (arith, doubled)) (omega arith))

-- Every entry of the table is its index divided by the polynomial.
table_check : all_below 256 (λ h. get_or crc32_table h 0 == shift_bits 8 (h * 2 ^ 24)) ≡ true
unfolding all_below crc32_table shift_bits shift_bit
table_check = refl

crc32_table_lem : (h : ℕ) → h < 256 → get_or crc32_table h 0 ≡ shift_bits 8 (h * 2 ^ 24)
crc32_table_lem h lt = (==_iff _ _).0 (all_below_sound 256 _ h table_check lt)

module _ (crc b : ℕ) (word : crc < 2 ^ 32) (octet : b < 256) where
  index : ℕ
  index = bit_xor (crc / 2 ^ 24) b

  index-lt : index < 2 ^ 8
  unfolding index
  index-lt = bit_xor-lt 8 (crc / 2 ^ 24) b (omega arith) (omega arith)

  -- The byte that is mixed in meets the high byte of the register alone.
  mixed : bit_xor crc (b * 2 ^ 24) ≡ bit_xor (index * 2 ^ 24) (crc % 2 ^ 24)
  unfolding index
  mixed =
      let low = crc % 2 ^ 24 in
      let high : (z : ℕ) → z * 2 ^ 24 / 2 ^ 24 ≡ z = λ z. omega arith in
      let none_low : (z : ℕ) → z * 2 ^ 24 % 2 ^ 24 ≡ 0 = λ z. omega arith in
      let none_high : low / 2 ^ 24 ≡ 0 = omega arith in
      let same_low : low % 2 ^ 24 ≡ low = omega arith in
      omega (
        arith,
        div-bit_xor 24 crc (b * 2 ^ 24),
        mod-bit_xor 24 crc (b * 2 ^ 24),
        div-bit_xor 24 (index * 2 ^ 24) low,
        mod-bit_xor 24 (index * 2 ^ 24) low,
        ap (bit_xor (crc / 2 ^ 24)) (high b),
        ap (bit_xor low) (none_low b) ∙ bit_xor-zero low,
        ap (λ t. bit_xor t (low / 2 ^ 24)) (high index)
            ∙ ap (bit_xor index) none_high
            ∙ bit_xor-zero index,
        ap (λ t. bit_xor t (low % 2 ^ 24)) (none_low index)
            ∙ zero-bit_xor (low % 2 ^ 24)
            ∙ same_low,
      )

  crc32_step-eq : crc32_step crc b ≡ shift_bits 8 (bit_xor crc (b * 2 ^ 24))
  unfolding crc32_step index
  crc32_step-eq =
      let low = crc % 2 ^ 24 in
      let small : index % 2 ^ 8 ≡ index = omega (arith, index-lt) in
      let shifted : crc * 2 ^ 8 % 2 ^ 32 ≡ low * 2 ^ 8 = omega arith in
      ap (bit_xor (crc * 2 ^ 8 % 2 ^ 32))
        (ap (λ t. get_or crc32_table t 0) small ∙ crc32_table_lem index index-lt)
      ∙ ap (λ t. bit_xor t (shift_bits 8 (index * 2 ^ 24))) shifted
      ∙ bit_xor_comm (low * 2 ^ 8) (shift_bits 8 (index * 2 ^ 24))
      ∙ sym (shift_bits-bit_xor 8 (index * 2 ^ 24) low (omega arith) (omega arith))
      ∙ sym (ap (shift_bits 8) mixed)

shift_bits-lt : (n x : ℕ) → x < 2 ^ 32 → shift_bits n x < 2 ^ 32
unfolding shift_bits
shift_bits-lt zero x h = h
shift_bits-lt (suc n) x h = shift_bits-lt n (shift_bit x) (shift_bit-lt x)

loop-eq :
    (bs : List ℕ) (crc : ℕ)
    → crc < 2 ^ 32
    → All (λ b. b < 256) bs
    → (crc32_loop crc bs ≡ bitwise_loop crc bs) × (bitwise_loop crc bs < 2 ^ 32)
unfolding crc32_loop bitwise_loop
loop-eq [] crc h a = (refl, h)
loop-eq (b ∷ bs) crc h a =
    let next = shift_bits 8 (bit_xor crc (b * 2 ^ 24)) in
    let next-lt : next < 2 ^ 32 =
      shift_bits-lt 8 _ (bit_xor-lt 32 crc (b * 2 ^ 24) h (omega arith)) in
    rw (crc32_step-eq crc b h a.0) (loop-eq bs next next-lt a.1)

-- The table-driven checksum of any bytes is the remainder of the bitwise polynomial division.
pub crc32-eq-bitwise : (bs : List ℕ) → All (λ b. b < 256) bs → crc32 bs ≡ crc32_bitwise bs
unfolding crc32 crc32_bitwise
crc32-eq-bitwise bs a = ap (λ t. bit_xor t 0xFFFFFFFF) (loop-eq bs 0xFFFFFFFF (omega arith) a).0
