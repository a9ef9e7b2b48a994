-- ===== src/TimerHeap/Unlink.antt =====
-- cl_timerheap_pop and cl_timerheap_remove.
use lwmsg.Base.{
  ℕ, ◌+◌, ◌-◌, ◌%◌, ◌^◌, ◌≤◌, ◌<◌, ◌≡◌, ◌≢◌, ◌⊎◌, ◌↔◌, inl, inr, refl, sym, ap, subst, ◌||◌, ◌∙◌,
  arith, ◌==◌, Returns, length, if◌then◌else◌, Bool-cases, false, none, some,
}
use lwmsg.TimerHeap.{
  TimerHeap, slot, swap, set_index, min_index, heapify_up, heapify_down, cl_timerheap_pop,
  cl_timerheap_remove, remove_at,
}
use lwmsg.TimerHeap.Slots.{
  key, nanos, IsWired, Holds, min_index-cases, slot-injective, slot-swap, key-swap,
  swap-num_clients, swap-IsWired, swap-Kept, swap-auth_deadline, swap-cl_state, swap-other,
}
use lwmsg.TimerHeap.Order.{parent, IsValid, Sifted, root_least}
use lwmsg.TimerHeap.Up.{UpInv, heapify_up-Sifted}
use lwmsg.TimerHeap.Down.{DownInv, heapify_down-Sifted}

-- `h'` is what is left of `h` without the client `p`.
pub record Removed (h : TimerHeap) (p : ℕ) (h' : TimerHeap) : Type 0 where
  pub valid : IsValid h'
  pub count : h'.num_clients + 1 ≡ h.num_clients
  pub members : (q : ℕ) → Holds h' q ↔ (Holds h q × (q ≢ p))
  pub unlinked : (h'.cl p).timerheap_index ≡ none
  pub same_deadline : (q : ℕ) → (h'.cl q).auth_deadline ≡ (h.cl q).auth_deadline
  pub same_state : (q : ℕ) → (h'.cl q).cl_state ≡ (h.cl q).cl_state
  pub same_index :
      (q : ℕ) → ¬ Holds h q → q ≢ p → (h'.cl q).timerheap_index ≡ (h.cl q).timerheap_index

-- The heap without its last slot, whose client forgets its index.
abbrev dropped : TimerHeap → TimerHeap
dropped h = record h {
  num_clients = h.num_clients - 1;
  cl = set_index h.cl (slot h (h.num_clients - 1)) none;
}

module _ (h : TimerHeap) (w : IsWired h) (some_left : 0 < h.num_clients) where
  dropped-key : (c : ℕ) → key (dropped h) c ≡ key h c
  dropped-key c = ground arith

  dropped-IsWired : IsWired (dropped h)
  dropped-IsWired = record {
    slots = w.slots;
    power = w.power;
    small = w.small;
    few = omega (arith, w.few);
    fits = omega (arith, w.fits);
    indexed = λ i p. ground (arith, w.indexed i, w.indexed (h.num_clients - 1));
    nonnull = λ i p. w.nonnull i (omega arith);
    normal = λ p. ground (arith, w.normal p, w.normal (slot h (h.num_clients - 1)));
  }

  dropped-members : (q : ℕ) → Holds (dropped h) q ↔ (Holds h q × (q ≢ slot h (h.num_clients - 1)))
  dropped-members q = (
    λ (c, lt, e). (
      (c, omega arith, e),
      λ e'. absurd (
          omega
            (arith, slot-injective c (h.num_clients - 1) w (omega arith) (omega arith) (e ∙ e'))),
    ),
    λ ((c, lt, e), ne). (c, ground arith, e),
  )

-- The heap of cl_timerheap_remove and cl_timerheap_pop once the client in slot `i` has left it: the
-- last client stands there.
module _ (h : TimerHeap) (i : ℕ) (v : IsValid h) (before : i < h.num_clients - 1) where
  abbrev end : ℕ
  end = h.num_clients - 1

  abbrev moved : TimerHeap
  moved = dropped (swap h i end)

  -- The state that the code reaches.
  abbrev shrunk : TimerHeap
  shrunk =
      let swapped = swap (record h { num_clients = end }) i end in
      record swapped { cl = set_index swapped.cl (slot h i) none }

  in_array : (c : ℕ) → c < h.num_clients → c < length h.clients
  in_array c p = omega (arith, v.wired.slots, v.wired.fits)

  slots :
      (c : ℕ)
      → slot (swap h i end) c
        ≡ (if end == c then slot h i else if i == c then slot h end else slot h c)
  slots = slot-swap h i end (in_array i (omega arith)) (in_array end (omega arith))

  keys :
      (c : ℕ)
      → key (swap h i end) c ≡ (if end == c then key h i else if i == c then key h end else key h c)
  keys = key-swap h i end (in_array i (omega arith)) (in_array end (omega arith))

  swapped-IsWired : IsWired (swap h i end)
  swapped-IsWired = swap-IsWired h i end v.wired (omega arith) (omega arith) (omega arith)

  leaving : slot (swap h i end) end ≡ slot h i
  leaving = ground (arith, slots end)

  shrunk-eq : shrunk ≡ moved
  unfolding swap
  shrunk-eq =
      ap
        (λ z. record h {
          clients = (swap h i end).clients;
          num_clients = end;
          cl = set_index (swap h i end).cl z none;
        })
        (sym leaving)

  moved-IsWired : IsWired moved
  moved-IsWired =
      dropped-IsWired (swap h i end) swapped-IsWired (omega (arith, swap-num_clients h i end))

  moved-count : moved.num_clients ≡ end
  moved-count = omega (arith, swap-num_clients h i end)

  moved-key : (c : ℕ) → c < end → key moved c ≡ (if i == c then key h end else key h c)
  moved-key c p = ground (
    arith,
    dropped-key (swap h i end) swapped-IsWired (omega (arith, swap-num_clients h i end)) c,
    keys c,
  )

  moved-DownInv : (0 < i → key moved (parent i) ≤ key moved i) → DownInv moved i
  moved-DownInv le = record {
    inside = omega (arith, moved-count);
    edges =
        λ c p q n. ground (arith, moved-count, moved-key c, moved-key (parent c), v.ordered c, le);
    bridged = λ c p q e r.
        ground (arith, moved-count, moved-key c, moved-key (parent i), v.ordered c, v.ordered i);
  }

  moved-UpInv : 0 < i → key moved i < key moved (parent i) → UpInv moved i
  moved-UpInv p lt = record {
    inside = omega (arith, moved-count);
    edges = λ c p q n. ground (
      arith,
      moved-count,
      moved-key c,
      moved-key (parent c),
      moved-key i,
      moved-key (parent i),
      v.ordered c,
      v.ordered i,
    );
    bridged = λ c p q e r.
        ground (arith, moved-count, moved-key c, moved-key (parent i), v.ordered c, v.ordered i);
  }

  left_last : slot (swap h i end) ((swap h i end).num_clients - 1) ≡ slot h i
  left_last = rw (swap-num_clients h i end) leaving

  moved-members : (q : ℕ) → Holds moved q ↔ (Holds h q × (q ≢ slot h i))
  moved-members q =
      let gone =
        dropped-members (swap h i end) swapped-IsWired (omega (arith, swap-num_clients h i end))
          q in
      let sw =
        (swap-Kept h i end v.wired (omega arith) (omega arith) (omega arith)).same_members q in
      (
        λ m. let (a, ne) = gone.0 m in (sw.1 a, λ e. ne (e ∙ sym left_last)),
        λ (a, ne). gone.1 (sw.0 a, λ e. ne (e ∙ left_last)),
      )

  moved-unlinked : (moved.cl (slot h i)).timerheap_index ≡ none
  moved-unlinked = ground (arith, left_last)

  moved-deadline : (q : ℕ) → (moved.cl q).auth_deadline ≡ (h.cl q).auth_deadline
  moved-deadline q = ground (
    arith,
    swap-auth_deadline h i end q,
    swap-auth_deadline h i end (slot (swap h i end) ((swap h i end).num_clients - 1)),
  )

  moved-state : (q : ℕ) → (moved.cl q).cl_state ≡ (h.cl q).cl_state
  moved-state q = ground (
    arith,
    swap-cl_state h i end q,
    swap-cl_state h i end (slot (swap h i end) ((swap h i end).num_clients - 1)),
  )

  -- A client that was not in the heap is as it was.
  moved-index : (q : ℕ) → ¬ Holds h q → (moved.cl q).timerheap_index ≡ (h.cl q).timerheap_index
  moved-index q out =
      let not_first : slot h i ≢ q = λ e. out (i, omega arith, e) in
      let not_last : slot h end ≢ q = λ e. out (end, omega arith, e) in
      ground (
        arith,
        not_first,
        left_last,
        ap (λ c. c.timerheap_index) (swap-other h i end q not_first not_last),
      )

  -- Whatever sifts the rest leaves `h` without the client.
  Sifted-Removed : (h' : TimerHeap) → Sifted moved h' → Removed h (slot h i) h'
  Sifted-Removed h' (valid, k) = record {
    valid = valid;
    count = omega (arith, moved-count, k.same_num_clients);
    members = λ q.
        let m = moved-members q in
        let same = k.same_members q in (λ a. m.0 (same.1 a), λ a. same.0 (m.1 a));
    unlinked =
        ap (λ c. c.timerheap_index)
          (k.same_others (slot h i) (λ a. ((moved-members (slot h i)).0 a).1 refl))
        ∙ moved-unlinked;
    same_deadline = λ q. k.same_deadline q ∙ moved-deadline q;
    same_state = λ q. k.same_state q ∙ moved-state q;
    same_index = λ q out ne.
        ap (λ c. c.timerheap_index) (k.same_others q (λ a. out ((moved-members q).0 a).0))
        ∙ moved-index q out;
  }

  sinks :
      (0 < i → key moved (parent i) ≤ key moved i)
      → Returns (Removed h (slot h i)) (heapify_down (h.num_clients + 1) shrunk i)
  sinks le =
      let run : Returns (Sifted moved) (heapify_down (h.num_clients + 1) moved i) =
        heapify_down-Sifted (h.num_clients + 1) moved i (omega (arith, moved-count)) moved-IsWired
          (moved-DownInv le) in
      subst (λ z. Returns (Removed h (slot h i)) (heapify_down (h.num_clients + 1) z i))
        (sym shrunk-eq) (run.0, run.1, Sifted-Removed run.0 run.2)

  rises :
      0 < i
      → key moved i < key moved (parent i)
      → Returns (Removed h (slot h i)) (heapify_up (h.num_clients + 1) shrunk i)
  rises p lt =
      let run : Returns (Sifted moved) (heapify_up (h.num_clients + 1) moved i) =
        heapify_up-Sifted (h.num_clients + 1) moved i (omega arith) moved-IsWired
          (moved-UpInv p lt) in
      subst (λ z. Returns (Removed h (slot h i)) (heapify_up (h.num_clients + 1) z i))
        (sym shrunk-eq) (run.0, run.1, Sifted-Removed run.0 run.2)

  -- MIN on the state of the code, read by the deadlines.
  order :
      ((min_index shrunk i (parent i) ≡ i) × (key moved i < key moved (parent i)))
      ⊎ ((min_index shrunk i (parent i) ≡ parent i) × (key moved (parent i) ≤ key moved i))
  order =
      subst
        (λ z.
          ((min_index z i (parent i) ≡ i) × (key moved i < key moved (parent i)))
          ⊎ ((min_index z i (parent i) ≡ parent i) × (key moved (parent i) ≤ key moved i)))
        (sym shrunk-eq) (min_index-cases moved i (parent i) moved-IsWired.normal)

  remove_at-Removed : Returns (Removed h (slot h i)) (remove_at h (slot h i) i)
  unfolding remove_at
  remove_at-Removed = elim (Bool-cases (i == 0)) [
    | inl z ↦ rw z (sinks (λ p. absurd (ground arith)))
    | inr n ↦ elim (Bool-cases (min_index shrunk i (parent i) == i)) [
      | inl t ↦ rw (n, t) (rises (ground arith) (ground (arith, order)))
      | inr t ↦ rw (n, t) (sinks (λ p. ground (arith, order)))
    ]
  ]

-- The last client leaves with no sifting.
dropped-Removed :
    (h : TimerHeap)
    → IsValid h
    → 0 < h.num_clients
    → Removed h (slot h (h.num_clients - 1)) (dropped h)
dropped-Removed h v p = record {
  valid = record {
    wired = dropped-IsWired h v.wired p;
    ordered = λ c a b.
        ground (arith, dropped-key h v.wired p c, dropped-key h v.wired p (parent c), v.ordered c);
  };
  count = omega arith;
  members = dropped-members h v.wired p;
  unlinked = ground arith;
  same_deadline = λ q. ground arith;
  same_state = λ q. ground arith;
  same_index = λ q out ne. ground (arith, ne);
}

-- The client in the last slot, or the only one, leaves with no sifting.
remove-slot :
    (h : TimerHeap) (i : ℕ)
    → IsValid h
    → i < h.num_clients
    → Returns (Removed h (slot h i)) (cl_timerheap_remove h (slot h i))
unfolding cl_timerheap_remove
remove-slot h i v lt =
    let some_left : (h.num_clients == 0) ≡ false = ground arith in
    let index : i % 2 ^ 32 ≡ i = omega (arith, v.wired.few) in
    rw (some_left, v.wired.indexed i lt, index)
      (elim (Bool-cases (h.num_clients - 1 == 0 || i == h.num_clients - 1)) [
        | inl t ↦
            let at_end : i ≡ h.num_clients - 1 = ground arith in
            rw (t, at_end) (dropped h, refl, dropped-Removed h v (omega arith))
        | inr t ↦ rw t (remove_at-Removed h i v (ground arith))
      ])

-- cl_timerheap_remove takes a client that is in the heap out of it, wherever it stands, and leaves
-- a valid heap of the others; the client forgets its index.
pub remove-Removed :
    (h : TimerHeap) (p : ℕ)
    → IsValid h
    → Holds h p
    → Returns (Removed h p) (cl_timerheap_remove h p)
remove-Removed h p v (i, lt, e) =
    subst (λ q. Returns (Removed h q) (cl_timerheap_remove h q)) e (remove-slot h i v lt)

-- cl_timerheap_remove leaves the heap as it is for a client without an index.
pub remove-unlinked :
    (h : TimerHeap) (p : ℕ) → (h.cl p).timerheap_index ≡ none → cl_timerheap_remove h p ≡ some h
unfolding cl_timerheap_remove
remove-unlinked h p e = ground arith

-- cl_timerheap_pop returns the client that is due first, and leaves a valid heap of the others; the
-- client forgets its index.
pub pop-Removed :
    (h : TimerHeap)
    → IsValid h
    → 0 < h.num_clients
    → Returns
        (λ (p, h').
          (p ≡ slot h 0)
          × Removed h p h'
          × ((i : ℕ) → i < h.num_clients → nanos (h.cl p).auth_deadline ≤ key h i))
        (cl_timerheap_pop h)
unfolding cl_timerheap_pop
pop-Removed h v some_left =
    let first = λ (i : ℕ) (p : i < h.num_clients). root_least h i v.ordered p in
    let n : (h.num_clients == 0) ≡ false = ground arith in
    let index : (h.num_clients - 1) % 2 ^ 32 ≡ h.num_clients - 1 = omega (arith, v.wired.few) in
    elim (Bool-cases (h.num_clients - 1 == 0)) [
      | inl t ↦
          let one : h.num_clients - 1 ≡ 0 = ground arith in
          let rest = λ (k : ℕ). record h {
            num_clients = h.num_clients - 1;
            cl = set_index h.cl (slot h k) none;
          } in
          let r : Removed h (slot h 0) (rest 0) =
            subst (λ k. Removed h (slot h k) (rest k)) one (dropped-Removed h v some_left) in
          rw (n, t) ((slot h 0, rest 0), refl, (refl, r, first))
      | inr t ↦
          let (h', e, r) = sinks h 0 v (ground arith) (λ p. absurd (omega arith)) in
          rw (n, t, index, e) ((slot h 0, h'), refl, (refl, r, first))
    ]
