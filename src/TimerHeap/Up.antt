-- ===== src/TimerHeap/Up.antt =====
-- cl_timerheap_heapify_up.
use lwmsg.Base.{
  ℕ, zero, suc, ◌≤◌, ◌<◌, ◌≡◌, ◌≢◌, inl, inr, ◌&&◌, refl, arith, ltb, ◌==◌, Returns, length,
  Bool-cases, true, false,
}
use lwmsg.TimerHeap.{TimerHeap, swap, min_index, heapify_up}
use lwmsg.TimerHeap.Slots.{
  key, IsWired, Kept-refl, min_index-cases, key-swap, swap-num_clients, swap-IsWired, swap-Kept,
}
use lwmsg.TimerHeap.Order.{parent, Sifted, Sifted-after}

-- Only the edge above `i` may be out of order.
pub record UpInv (h : TimerHeap) (i : ℕ) : Type 0 where
  pub inside : i < h.num_clients
  pub edges : (c : ℕ) → 0 < c → c < h.num_clients → c ≢ i → key h (parent c) ≤ key h c
  pub bridged :
      (c : ℕ) → 0 < c → c < h.num_clients → parent c ≡ i → 0 < i → key h (parent i) ≤ key h c

module _ (h : TimerHeap) (i : ℕ) (w : IsWired h) (v : UpInv h i) where
  above : parent i < h.num_clients
  above = omega (arith, v.inside)

  in_array : (c : ℕ) → c < h.num_clients → c < length h.clients
  in_array c p = omega (arith, w.slots, w.fits)

  swap-UpInv : 0 < i → key h i < key h (parent i) → UpInv (swap h i (parent i)) (parent i)
  swap-UpInv pos below =
      let at = key-swap h i (parent i) (in_array i v.inside) (in_array (parent i) above) in
      let same = swap-num_clients h i (parent i) in
      record {
        inside = omega (arith, same, above);
        edges = λ c p q n. ground (arith, same, at c, at (parent c), v.edges c, v.bridged c);
        bridged = λ c p q e r.
            ground (arith, same, at c, at (parent (parent i)), v.edges (parent i), v.edges c);
      }

  -- The loop ends: the client is not due before its parent.
  settled : (0 < i → key h (parent i) ≤ key h i) → Sifted h h
  settled le = (record { wired = w; ordered = λ c p q. ground (arith, v.edges c, le) }, Kept-refl h)

-- The test of the loop, read by the deadlines.
rises :
    (h : TimerHeap) (i : ℕ)
    → IsWired h
    → (ltb 0 i && min_index h i (parent i) == i) ≡ true
    → (0 < i) × (key h i < key h (parent i))
rises h i w e = ground (arith, min_index-cases h i (parent i) w.normal)

rests :
    (h : TimerHeap) (i : ℕ)
    → IsWired h
    → (ltb 0 i && min_index h i (parent i) == i) ≡ false
    → 0 < i
    → key h (parent i) ≤ key h i
rests h i w e p = ground (arith, min_index-cases h i (parent i) w.normal)

-- Where only the edge above `i` may be out of order, the loop ends and makes a valid heap of the
-- same clients.
pub heapify_up-Sifted :
    (fuel : ℕ) (h : TimerHeap) (i : ℕ)
    → i < fuel
    → IsWired h
    → UpInv h i
    → Returns (Sifted h) (heapify_up fuel h i)
unfolding heapify_up
heapify_up-Sifted zero h i f w v = absurd (omega arith)
heapify_up-Sifted (suc fuel) h i f w v =
    elim (Bool-cases (ltb 0 i && min_index h i (parent i) == i)) [
      | inl e ↦
          let (pos, below) = rises h i w e in
          let p-in = above h i w v in
          let ne : i ≢ parent i = omega arith in
          rw e (
            Sifted-after (swap-Kept h i (parent i) w v.inside p-in ne) (
              heapify_up-Sifted fuel (swap h i (parent i)) (parent i) (omega arith)
                (swap-IsWired h i (parent i) w v.inside p-in ne) (swap-UpInv h i w v pos below)))
      | inr e ↦ rw e (h, refl, settled h i w v (rests h i w e))
    ]
