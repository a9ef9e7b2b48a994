-- ===== src/Worker/Safe.antt =====
-- What keeps the memory of a worker's clients in order, in server/worker.c.
use lwmsg.Base.{ℕ, ◌^◌, ◌<◌, ◌≡◌, ◌≢◌, ◌⊎◌, arith, true, false, none}
use lwmsg.TimerHeap.{TimerHeap, Client, update, slot}
use lwmsg.TimerHeap.Slots.{Holds, key}
use lwmsg.TimerHeap.Order.{IsValid, parent}
use lwmsg.ClHandle.RegList.{InList, IsDistinct}
use lwmsg.Worker.{Worker, cl_state, accepting, accepted, set_state}

-- The heap is valid; a client that it holds is in the list of those to authenticate and is ACCEPTED; a
-- client of that list is allocated, ACCEPTING or ACCEPTED, and held by the heap or without an index.
pub record IsSafe (w : Worker) : Type 0 where
  pub valid : IsValid w.clth
  pub distinct : IsDistinct w.preauth_list
  pub held : (p : ℕ) → Holds w.clth p → InList p w.preauth_list × (cl_state w p ≡ accepted)
  pub listed :
      (p : ℕ)
      → InList p w.preauth_list
      → (p ≢ 0) × (w.live p ≡ true) × ((cl_state w p ≡ accepting) ⊎ (cl_state w p ≡ accepted))
  pub indexed :
      (p : ℕ) → InList p w.preauth_list → Holds w.clth p ⊎ ((w.clth.cl p).timerheap_index ≡ none)

-- A heap does not look at the state of a client.
pub set_state-IsValid : (w : Worker) (p s : ℕ) → IsValid w.clth → IsValid (set_state w p s).clth
set_state-IsValid w p s v =
    let h' = (set_state w p s).clth in
    let same : (c : ℕ) → key h' c ≡ key w.clth c = λ c. ground arith in
    record {
      wired = record {
        slots = v.wired.slots;
        power = v.wired.power;
        small = v.wired.small;
        few = v.wired.few;
        fits = v.wired.fits;
        indexed = λ i lt. ground (arith, v.wired.indexed i lt);
        nonnull = v.wired.nonnull;
        normal = λ q. ground (arith, v.wired.normal q);
      };
      ordered = λ c a b. omega (arith, same c, same (parent c), v.ordered c a b);
    }

-- Nor at a client that it does not hold.
pub update-IsValid :
    (h : TimerHeap) (p : ℕ) (c : Client)
    → IsValid h
    → ¬ Holds h p
    → c.auth_deadline.tv_nsec < 10 ^ 9
    → IsValid (record h { cl = update h.cl p c })
update-IsValid h p c v out normal =
    let h' = record h { cl = update h.cl p c } in
    let other : (i : ℕ) → i < h.num_clients → slot h i ≢ p = λ i lt e. out (i, lt, e) in
    let same : (i : ℕ) → i < h.num_clients → key h' i ≡ key h i =
      λ i lt. ground (arith, other i lt) in
    record {
      wired = record {
        slots = v.wired.slots;
        power = v.wired.power;
        small = v.wired.small;
        few = v.wired.few;
        fits = v.wired.fits;
        indexed = λ i lt. ground (arith, v.wired.indexed i lt, other i lt);
        nonnull = v.wired.nonnull;
        normal = λ q. ground (arith, v.wired.normal q, normal);
      };
      ordered =
          λ i a b. omega (arith, same i b, same (parent i) (omega (arith, a, b)), v.ordered i a b);
    }

-- The clients outside the list may come and go.
pub unlisted : (w : Worker) (p : ℕ) → IsSafe w → w.live p ≡ false → ¬ InList p w.preauth_list
unlisted w p s dead m = absurd (ground (arith, (s.listed p m).1, dead))
