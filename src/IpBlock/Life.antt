-- ===== src/IpBlock/Life.antt =====
-- How long the records of server/ipblock.c block an address, and which addresses ip_cmp tells apart.
use lwmsg.Base.{
  ℕ, zero, suc, ◌+◌, ◌*◌, ◌/◌, ◌%◌, ◌^◌, ◌≤◌, ◌<◌, ◌≡◌, ◌↔◌, ◌⊎◌, inl, inr, refl, sym, ap, subst,
  ◌∙◌, arith, true, Ordering, compare, ◌==◌, Bool-cases, ==_iff,
}
use lwmsg.TimerHeap.{Timespec}
use lwmsg.IpBlock.{
  RegIpbRec, StdIpbRec, rs_blocked, rs_expired, chk_reg_block, chk_std_block, reg_ipb_rec_create,
  ip_cmp, ip_cmp_loop, rsn_regsucc,
}

-- A registration record blocks its address when it was made by hand, or when its time is not over and
-- there are five failures or one success.
chk_reg_block-blocked_iff :
    (r : RegIpbRec) (now : Timespec)
    → (chk_reg_block r now ≡ rs_blocked) ↔ (
        (r.reg_is_manual ≡ true)
        ⊎ ((now.tv_sec < r.reg_timestamp.tv_sec + 7200)
            × ((5 ≤ r.failed_regs) ⊎ (1 ≤ r.succ_regs))))
unfolding chk_reg_block
chk_reg_block-blocked_iff r now = ground arith

-- An authentication record blocks its address when it was made by hand, or when its time is not over
-- and there are five failures.
pub chk_std_block-blocked_iff :
    (r : StdIpbRec) (now : Timespec)
    → (chk_std_block r now ≡ rs_blocked) ↔ (
        (r.std_is_manual ≡ true)
        ⊎ ((now.tv_sec < r.std_timestamp.tv_sec + 3600) × (5 ≤ r.failed_auths)))
unfolding chk_std_block
chk_std_block-blocked_iff r now = ground arith

-- The record that a successful registration makes blocks its address for twice REGBLOCK_EXPIRY, and
-- is expired from then on.
pub reg_success-chk_reg_block :
    (ip : ℕ) (made now : Timespec)
    → ((chk_reg_block (reg_ipb_rec_create ip rsn_regsucc made) now ≡ rs_blocked)
        ↔ (now.tv_sec < made.tv_sec + 2 * 7200))
      × ((chk_reg_block (reg_ipb_rec_create ip rsn_regsucc made) now ≡ rs_expired)
          ↔ (made.tv_sec + 2 * 7200 ≤ now.tv_sec))
unfolding chk_reg_block reg_ipb_rec_create
reg_success-chk_reg_block ip made now = (ground arith, ground arith)

loop-reflexive : (n i a : ℕ) → ip_cmp_loop n i a a ≡ Ordering.eq
loop-reflexive zero i a = refl
loop-reflexive (suc n) i a = ground (arith, loop-reflexive n (i + 1) a)

first_same :
    (x y : ℕ) (rest : Ordering)
    → (elim (compare x y) [
      | Ordering.eq ↦ rest
      | Ordering.lt ↦ Ordering.lt
      | Ordering.gt ↦ Ordering.gt
    ])
      ≡ Ordering.eq
    → (x ≡ y) × (rest ≡ Ordering.eq)
first_same x y rest e = ground arith

loop-same :
    (n i a b : ℕ)
    → ip_cmp_loop n i a b ≡ Ordering.eq
    → (j : ℕ) → i ≤ j
    → j < i + n
    → a / 2 ^ (8 * j) % 256 ≡ b / 2 ^ (8 * j) % 256
loop-same zero i a b e j le lt = absurd (omega arith)
loop-same (suc n) i a b e j le lt =
    let (here, later) =
      first_same (a / 2 ^ (8 * i) % 256) (b / 2 ^ (8 * i) % 256) (ip_cmp_loop n (i + 1) a b) e in
    elim (Bool-cases (i == j)) [
      | inl same ↦
          subst (λ k. a / 2 ^ (8 * k) % 256 ≡ b / 2 ^ (8 * k) % 256) ((==_iff i j).0 same) here
      | inr other ↦ loop-same n (i + 1) a b later j (ground (arith, other, le)) (omega (arith, lt))
    ]

-- On addresses of four bytes, ip_cmp answers 0 exactly for the same address.
ip_cmp-eq_iff : (a b : ℕ) → a < 2 ^ 32 → b < 2 ^ 32 → (ip_cmp a b 4 ≡ Ordering.eq) ↔ (a ≡ b)
unfolding ip_cmp
ip_cmp-eq_iff a b la lb = (
  λ e. omega (
    arith,
    loop-same 4 0 a b e 0 (omega arith) (omega arith),
    loop-same 4 0 a b e 1 (omega arith) (omega arith),
    loop-same 4 0 a b e 2 (omega arith) (omega arith),
    loop-same 4 0 a b e 3 (omega arith) (omega arith),
  ),
  λ e. ap (λ x. ip_cmp_loop 4 0 a x) (sym e) ∙ loop-reflexive 4 0 a,
)
