-- ===== src/TimerHeap/Down.antt =====
-- cl_timerheap_heapify_down.
use lwmsg.Base.{
  ℕ, zero, suc, ◌+◌, ◌*◌, ◌-◌, ◌≤◌, ◌%◌, ◌^◌, ◌<◌, ◌≡◌, ◌≢◌, ◌⊎◌, inl, inr, refl, arith, ◌==◌,
  Returns, length, Bool-cases, Option-cases, none, some,
}
use lwmsg.TimerHeap.{TimerHeap, swap, min_index, new_index, heapify_down}
use lwmsg.TimerHeap.Slots.{
  key, IsWired, Kept-refl, min_index-cases, key-swap, swap-num_clients, swap-IsWired, swap-Kept,
}
use lwmsg.TimerHeap.Order.{parent, Sifted, Sifted-after}

-- Only the edges below `i` may be out of order.
pub record DownInv (h : TimerHeap) (i : ℕ) : Type 0 where
  pub inside : i < h.num_clients
  pub edges : (c : ℕ) → 0 < c → c < h.num_clients → parent c ≢ i → key h (parent c) ≤ key h c
  pub bridged :
      (c : ℕ) → 0 < c → c < h.num_clients → parent c ≡ i → 0 < i → key h (parent i) ≤ key h c

-- `m` is a child of `i`, and no child is due before it.
record IsFirstChild (h : TimerHeap) (i m : ℕ) : Type 0 where
  inside : m < h.num_clients
  child : (m ≡ 2 * i + 1) ⊎ (m ≡ 2 * i + 2)
  least : (c : ℕ) → 0 < c → c < h.num_clients → parent c ≡ i → key h m ≤ key h c

module _ (h : TimerHeap) (i : ℕ) (w : IsWired h) where
  -- The indexes of the loop do not wrap.
  left : i < h.num_clients → (2 * i + 1) % 2 ^ 32 ≡ 2 * i + 1
  left p = omega (arith, w.few)

  right : i < h.num_clients → (2 * i + 2) % 2 ^ 32 ≡ 2 * i + 2
  right p = omega (arith, w.few)

  greatest : (h.num_clients - 1) % 2 ^ 32 ≡ h.num_clients - 1
  greatest = omega (arith, w.few)

  new_index-some : (m : ℕ) → new_index h i ≡ some m → i < h.num_clients → IsFirstChild h i m
  unfolding new_index
  new_index-some m e' p =
      let e = rw (left p, right p, greatest) at e' in
      let l = 2 * i + 1 in
      let r = 2 * i + 2 in
      let picked = min_index-cases h l r w.normal in
      record {
        inside = ground (arith, e, w.nonnull l, w.nonnull r, picked);
        child = ground (arith, e, picked);
        least = λ c q s t.
            let which : (c ≡ l) ⊎ (c ≡ r) = omega arith in
            ground (arith, e, which, w.nonnull l, w.nonnull r, picked);
      }

  new_index-none : new_index h i ≡ none → i < h.num_clients → h.num_clients ≤ 2 * i + 1
  unfolding new_index
  new_index-none e' p =
      let e = rw (left p, right p, greatest) at e' in
      ground (arith, e, w.nonnull (2 * i + 1), w.nonnull (2 * i + 2))

module _ (h : TimerHeap) (i : ℕ) (w : IsWired h) (v : DownInv h i) where
  in_array : (c : ℕ) → c < h.num_clients → c < length h.clients
  in_array c p = omega (arith, w.slots, w.fits)

  swap-DownInv : (m : ℕ) → IsFirstChild h i m → key h m ≤ key h i → DownInv (swap h i m) m
  swap-DownInv m f below =
      let at = key-swap h i m (in_array i v.inside) (in_array m f.inside) in
      let same = swap-num_clients h i m in
      record {
        inside = omega (arith, same, f.inside);
        edges = λ c p q n. ground (
          arith,
          same,
          at c,
          at (parent c),
          v.edges c,
          v.bridged m,
          f.least c,
          f.child,
          f.inside,
        );
        bridged = λ c p q e r. ground (arith, same, at c, at (parent m), v.edges c, f.child);
      }

  -- The loop ends: there is no child, or the client is due before both.
  settled : ((c : ℕ) → 0 < c → c < h.num_clients → parent c ≡ i → key h i ≤ key h c) → Sifted h h
  settled le =
      (record { wired = w; ordered = λ c p q. ground (arith, v.edges c, le c) }, Kept-refl h)

-- Where only the edges below `i` may be out of order, the loop ends and makes a valid heap of the
-- same clients.
pub heapify_down-Sifted :
    (fuel : ℕ) (h : TimerHeap) (i : ℕ)
    → h.num_clients < fuel + i
    → IsWired h
    → DownInv h i
    → Returns (Sifted h) (heapify_down fuel h i)
unfolding heapify_down
heapify_down-Sifted zero h i f w v = absurd (omega (arith, v.inside))
heapify_down-Sifted (suc fuel) h i f w v = elim (Option-cases (new_index h i)) [
  | inl e ↦
      let few = new_index-none h i w e v.inside in
      rw (e, heapify_down) (h, refl, settled h i w v (λ c p q r. absurd (omega arith)))
  | inr (m, e) ↦
      let first = new_index-some h i w m e v.inside in
      let ne : i ≢ m = ground (arith, first.child) in
      let deeper : i < m = ground (arith, first.child) in
      elim (Bool-cases (min_index h i m == m)) [
        | inl t ↦
            let below : key h m ≤ key h i = ground (arith, min_index-cases h i m w.normal) in
            rw (e, t, heapify_down)
              (Sifted-after (swap-Kept h i m w v.inside first.inside ne) (
                heapify_down-Sifted fuel (swap h i m) m (omega (arith, swap-num_clients h i m))
                  (swap-IsWired h i m w v.inside first.inside ne)
                  (swap-DownInv h i w v m first below)))
        | inr t ↦
            let above : key h i ≤ key h m = ground (arith, min_index-cases h i m w.normal) in
            rw (e, t, heapify_down)
              (h, refl, settled h i w v (λ c p q r. omega (arith, first.least c p q r)))
      ]
]
