-- ===== src/TimerHeap/Order.antt =====
-- The order of the timer heap by deadline.
use lwmsg.Base.{ℕ, zero, suc, ◌-◌, ◌/◌, ◌≤◌, ◌<◌, Option, arith, Returns}
use lwmsg.TimerHeap.{TimerHeap}
use lwmsg.TimerHeap.Slots.{key, IsWired, Kept, Kept-trans}

abbrev pub parent : ℕ → ℕ
parent c = (c - 1) / 2

-- No client is due before the one in the parent slot.
abbrev pub IsHeap : TimerHeap → Type 0
IsHeap h = (c : ℕ) → 0 < c → c < h.num_clients → key h (parent c) ≤ key h c

-- The invariant of the timer heap between calls.
pub record IsValid (h : TimerHeap) : Type 0 where
  pub wired : IsWired h
  pub ordered : IsHeap h

-- `h'` is valid, and holds the clients of `h` with the deadlines that they had.
abbrev pub Sifted : TimerHeap → TimerHeap → Type 0
Sifted h h' = IsValid h' × Kept h h'

pub Sifted-after :
    {h h' : TimerHeap} {r : Option TimerHeap}
    → Kept h h'
    → Returns (Sifted h') r
    → Returns (Sifted h) r
Sifted-after k (a, e, (v, k')) = (a, e, (v, Kept-trans k k'))

root_least_below :
    (fuel : ℕ) (h : TimerHeap) (i : ℕ) → IsHeap h → i < fuel → i < h.num_clients → key h 0 ≤ key h i
root_least_below zero h i o f p = absurd (omega arith)
root_least_below (suc fuel) h i o f p = ground (arith, o i, root_least_below fuel h (parent i) o)

-- The client at the root is due first.
pub root_least : (h : TimerHeap) (i : ℕ) → IsHeap h → i < h.num_clients → key h 0 ≤ key h i
root_least h i o p = root_least_below (suc i) h i o (omega arith) p
