-- ===== src/IpBlock.antt =====
-- server/ipblock.h and server/ipblock.c: the records of addresses that may not register or
-- authenticate for a while. What clock_gettime returns is an argument, and the difference of two
-- times is signed. The list node of a record is left out.
pub mod Life
mod Tests
use lwmsg.Base.{
  ℕ, zero, suc, ◌+◌, ◌*◌, ◌/◌, ◌%◌, ◌^◌, Ordering, compare, Bool, true, false, ◌||◌, leb,
  if◌then◌else◌,
}
use lwmsg.TimerHeap.{Timespec}

abbrev pub regblock_fail_thres : ℕ
regblock_fail_thres = 5

abbrev pub regblock_succ_thres : ℕ
regblock_succ_thres = 1

abbrev pub authblock_fail_thres : ℕ
authblock_fail_thres = 5

abbrev pub regblock_expiry : ℕ
regblock_expiry = 7200

abbrev pub authblock_expiry : ℕ
authblock_expiry = 3600

pub data RecordStatus : Type 0 where
  rs_not_blocked rs_blocked rs_expired : RecordStatus

pub data RecordReason : Type 0 where
  rsn_manual rsn_regfail rsn_regsucc : RecordReason

-- `reg_ipb_rec`.
pub record RegIpbRec : Type 0 where
  pub reg_ip_addr : ℕ
  pub reg_timestamp : Timespec
  pub succ_regs : ℕ
  pub failed_regs : ℕ
  pub reg_is_manual : Bool

-- `std_ipb_rec`.
pub record StdIpbRec : Type 0 where
  pub std_ip_addr : ℕ
  pub std_timestamp : Timespec
  pub failed_auths : ℕ
  pub std_is_manual : Bool

unfoldable pub chk_reg_block : RegIpbRec → Timespec → RecordStatus
chk_reg_block ripbr now =
    if ripbr.reg_is_manual
    then rs_blocked
    else if leb (ripbr.reg_timestamp.tv_sec + regblock_expiry) now.tv_sec
    then rs_expired
    else if leb regblock_fail_thres ripbr.failed_regs || leb regblock_succ_thres ripbr.succ_regs
    then rs_blocked
    else rs_not_blocked

unfoldable pub chk_std_block : StdIpbRec → Timespec → RecordStatus
chk_std_block stdipbr now =
    if stdipbr.std_is_manual
    then rs_blocked
    else if leb (stdipbr.std_timestamp.tv_sec + authblock_expiry) now.tv_sec
    then rs_expired
    else if leb authblock_fail_thres stdipbr.failed_auths
    then rs_blocked
    else rs_not_blocked

abbrev pub one_if : Bool → ℕ
one_if b = if b then 1 else 0

unfoldable pub reg_ipb_rec_create : ℕ → RecordReason → Timespec → RegIpbRec
reg_ipb_rec_create peer_name rec_reason now = record {
  reg_ip_addr = peer_name;
  reg_timestamp = record now { tv_sec = now.tv_sec + regblock_expiry };
  succ_regs = one_if (elim rec_reason [ rsn_regsucc ↦ true | _ ↦ false ]);
  failed_regs = one_if (elim rec_reason [ rsn_regfail ↦ true | _ ↦ false ]);
  reg_is_manual = elim rec_reason [ rsn_manual ↦ true | _ ↦ false ];
}

unfoldable pub std_ipb_rec_create : ℕ → Bool → Timespec → StdIpbRec
std_ipb_rec_create peer_name is_manual now = record {
  std_ip_addr = peer_name;
  std_timestamp = record now { tv_sec = now.tv_sec + authblock_expiry };
  failed_auths = if is_manual then 0 else 1;
  std_is_manual = is_manual;
}

-- The loop of ip_cmp: `n` bytes from the byte `i` on, and the sign of the result.
abbrev ip_cmp_loop : ℕ → ℕ → ℕ → ℕ → Ordering
ip_cmp_loop zero i ip_a ip_b = Ordering.eq
ip_cmp_loop (suc n) i ip_a ip_b =
    elim (compare (ip_a / 2 ^ (8 * i) % 256) (ip_b / 2 ^ (8 * i) % 256)) [
      | Ordering.eq ↦ ip_cmp_loop n (i + 1) ip_a ip_b
      | Ordering.lt ↦ Ordering.lt
      | Ordering.gt ↦ Ordering.gt
    ]

unfoldable pub ip_cmp : ℕ → ℕ → ℕ → Ordering
ip_cmp ip_a ip_b lena = ip_cmp_loop lena 0 ip_a ip_b
