-- ===== src/IpBlock/Tests.antt =====
-- Records of the address 1.2.3.4, made at 100 seconds.
use lwmsg.Base.{ℕ, ◌+◌, ◌*◌, ◌≤◌, ◌<◌, ◌≡◌, ◌↔◌}
use lwmsg.TimerHeap.{Timespec}
use lwmsg.IpBlock.{rs_blocked, rs_expired, chk_reg_block, reg_ipb_rec_create, rsn_regsucc}
use lwmsg.IpBlock.Life.{reg_success-chk_reg_block}

abbrev at_time : ℕ → Timespec
at_time sec = record { tv_sec = sec; tv_nsec = 0 }

abbrev address : ℕ
address = 0x04030201

reg_success-chk_reg_block_example :
    ((chk_reg_block (reg_ipb_rec_create address rsn_regsucc (at_time 100)) (at_time 9000)
        ≡ rs_blocked)
      ↔ (9000 < 100 + 2 * 7200))
    × ((chk_reg_block (reg_ipb_rec_create address rsn_regsucc (at_time 100)) (at_time 9000)
          ≡ rs_expired)
        ↔ (100 + 2 * 7200 ≤ 9000))
reg_success-chk_reg_block_example = reg_success-chk_reg_block address (at_time 100) (at_time 9000)
