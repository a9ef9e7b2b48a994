-- ===== src/Lwmp/Crc/Bounds.antt =====
-- crc32 returns a uint32_t, whatever it is given.
use lwmsg.Base.{
  ℕ, ◌*◌, ◌/◌, ◌%◌, ◌^◌, ◌<◌, ◌≡◌, refl, true, List, [], ◌∷◌, arith, bit_xor, get_or, ltb, ltb→lt,
  bit_xor-lt, all_below, all_below_sound,
}
use lwmsg.Lwmp.Crc.{crc32_table, crc32_step, crc32_loop, crc32}

table_check : all_below 256 (λ h. ltb (get_or crc32_table h 0) (2 ^ 32)) ≡ true
unfolding all_below crc32_table
table_check = refl

crc32_step-lt : (crc b : ℕ) → crc32_step crc b < 2 ^ 32
unfolding crc32_step
crc32_step-lt crc b =
    let i = bit_xor (crc / 2 ^ 24) b % 2 ^ 8 in
    bit_xor-lt 32 (crc * 2 ^ 8 % 2 ^ 32) (get_or crc32_table i 0) (omega arith)
      (ltb→lt _ _ (all_below_sound 256 _ i table_check (omega arith)))

crc32_loop-lt : (bs : List ℕ) (crc : ℕ) → crc < 2 ^ 32 → crc32_loop crc bs < 2 ^ 32
unfolding crc32_loop
crc32_loop-lt [] crc h = h
crc32_loop-lt (b ∷ bs) crc h = crc32_loop-lt bs (crc32_step crc b) (crc32_step-lt crc b)

pub crc32-lt : (bs : List ℕ) → crc32 bs < 2 ^ 32
unfolding crc32
crc32-lt bs =
    bit_xor-lt 32 (crc32_loop 0xFFFFFFFF bs) 0xFFFFFFFF (crc32_loop-lt bs 0xFFFFFFFF (omega arith))
      (omega arith)
