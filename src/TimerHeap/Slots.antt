-- ===== src/TimerHeap/Slots.antt =====
-- The slots of the timer heap: what a valid heap is, and what `swap` does to it.
use lwmsg.Base.{
  ℕ, ◌+◌, ◌*◌, ◌^◌, ◌≤◌, ◌<◌, ◌≡◌, ◌≢◌, ◌⊎◌, ◌↔◌, refl, sym, ◌∙◌, some, arith, ◌==◌, if◌then◌else◌,
  length, get_or-set, length-set, set,
}
use lwmsg.TimerHeap.{TimerHeap, Timespec, slot, deadline, min_index, to_u32, swap}

abbrev pub nanos : Timespec → ℕ
nanos t = t.tv_sec * 10 ^ 9 + t.tv_nsec

-- The deadline of the client in a slot, in nanoseconds.
abbrev pub key : TimerHeap → ℕ → ℕ
key h i = nanos (deadline h i)

-- Every nanosecond field is that of a normal timespec.
abbrev pub IsNormal : TimerHeap → Type 0
IsNormal h = (p : ℕ) → (h.cl p).auth_deadline.tv_nsec < 10 ^ 9

-- The array is as long as it says, a power of two up to 2 ^ 31, there are fewer clients than file
-- descriptors, and each of its first num_clients slots points to a client that
-- knows its slot.
pub record IsWired (h : TimerHeap) : Type 0 where
  pub slots : h.num_slots ≡ length h.clients
  pub power : (k : ℕ) × (k ≤ 31) × (h.num_slots ≡ 2 ^ k)
  pub small : h.num_slots ≤ 2 ^ 31
  pub few : h.num_clients < 2 ^ 31
  pub fits : h.num_clients ≤ h.num_slots
  pub indexed : (i : ℕ) → i < h.num_clients → (h.cl (slot h i)).timerheap_index ≡ some i
  pub nonnull : (i : ℕ) → i < h.num_clients → slot h i ≢ 0
  pub normal : IsNormal h

-- The client is in the heap.
abbrev pub Holds : TimerHeap → ℕ → Type 0
Holds h p = (i : ℕ) × (i < h.num_clients) × (slot h i ≡ p)

-- No two slots hold the same client.
pub slot-injective :
    {h : TimerHeap} (i j : ℕ)
    → IsWired h
    → i < h.num_clients
    → j < h.num_clients
    → slot h i ≡ slot h j
    → i ≡ j
slot-injective {h} i j w hi hj e = ground (arith, w.indexed i, w.indexed j)

-- MIN chooses its first argument exactly if that is strictly the earlier one.
pub min_index-cases :
    (h : TimerHeap) (a b : ℕ)
    → IsNormal h
    → ((min_index h a b ≡ a) × (key h a < key h b)) ⊎ ((min_index h a b ≡ b) × (key h b ≤ key h a))
unfolding min_index
min_index-cases h a b normal = ground (arith, normal (slot h a), normal (slot h b))

module _ (h : TimerHeap) (i j : ℕ) where
  pub swap-auth_deadline : (p : ℕ) → ((swap h i j).cl p).auth_deadline ≡ (h.cl p).auth_deadline
  unfolding swap
  swap-auth_deadline p = ground arith

  pub swap-cl_state : (p : ℕ) → ((swap h i j).cl p).cl_state ≡ (h.cl p).cl_state
  unfolding swap
  swap-cl_state p = ground arith

  swap-timerheap_index :
      (p : ℕ)
      → ((swap h i j).cl p).timerheap_index ≡ (
          if p == slot h i
          then some (to_u32 (h.cl (slot h j)).timerheap_index)
          else if p == slot h j
          then some (to_u32 (h.cl (slot h i)).timerheap_index)
          else (h.cl p).timerheap_index)
  unfolding swap
  swap-timerheap_index p = ground arith

  pub swap-num_clients : (swap h i j).num_clients ≡ h.num_clients
  unfolding swap
  swap-num_clients = refl

  pub swap-num_slots : (swap h i j).num_slots ≡ h.num_slots
  unfolding swap
  swap-num_slots = refl

  pub swap-other : (p : ℕ) → slot h i ≢ p → slot h j ≢ p → (swap h i j).cl p ≡ h.cl p
  unfolding swap
  swap-other p ni nj = ground arith

  pub length-swap : length (swap h i j).clients ≡ length h.clients
  unfolding swap
  length-swap =
      length-set (set h.clients i (slot h j)) j (slot h i) ∙ length-set h.clients i (slot h j)

  pub slot-swap :
      i < length h.clients
      → j < length h.clients
      → (c : ℕ)
      → slot (swap h i j) c ≡ (if j == c then slot h i else if i == c then slot h j else slot h c)
  unfolding swap
  slot-swap hi hj c = ground (
    arith,
    get_or-set (set h.clients i (slot h j)) j c (slot h i) 0,
    get_or-set h.clients i c (slot h j) 0,
    length-set h.clients i (slot h j),
  )

  pub key-swap :
      i < length h.clients
      → j < length h.clients
      → (c : ℕ)
      → key (swap h i j) c ≡ (if j == c then key h i else if i == c then key h j else key h c)
  key-swap hi hj c = ground (arith, slot-swap hi hj c, swap-auth_deadline (slot (swap h i j) c))

-- What sifting leaves alone: all but the places of the clients that are in the heap.
pub record Kept (h h' : TimerHeap) : Type 0 where
  pub same_num_clients : h'.num_clients ≡ h.num_clients
  pub same_num_slots : h'.num_slots ≡ h.num_slots
  pub same_deadline : (p : ℕ) → (h'.cl p).auth_deadline ≡ (h.cl p).auth_deadline
  pub same_state : (p : ℕ) → (h'.cl p).cl_state ≡ (h.cl p).cl_state
  pub same_members : (p : ℕ) → Holds h p ↔ Holds h' p
  pub same_others : (p : ℕ) → ¬ Holds h p → h'.cl p ≡ h.cl p

pub Kept-refl : (h : TimerHeap) → Kept h h
Kept-refl h = record {
  same_num_clients = refl;
  same_num_slots = refl;
  same_deadline = λ p. refl;
  same_state = λ p. refl;
  same_members = λ p. (λ m. m, λ m. m);
  same_others = λ p n. refl;
}

pub Kept-trans : {h h' h'' : TimerHeap} → Kept h h' → Kept h' h'' → Kept h h''
Kept-trans a b = record {
  same_num_clients = b.same_num_clients ∙ a.same_num_clients;
  same_num_slots = b.same_num_slots ∙ a.same_num_slots;
  same_deadline = λ p. b.same_deadline p ∙ a.same_deadline p;
  same_state = λ p. b.same_state p ∙ a.same_state p;
  same_members = λ p. (
    λ m. (b.same_members p).0 ((a.same_members p).0 m),
    λ m. (a.same_members p).1 ((b.same_members p).1 m),
  );
  same_others = λ p n. b.same_others p (λ m. n ((a.same_members p).1 m)) ∙ a.same_others p n;
}

module _ (h : TimerHeap) (i j : ℕ) (w : IsWired h) (hi : i < h.num_clients) (hj : j < h.num_clients)
    (ne : i ≢ j) where
  in_i : i < length h.clients
  in_i = omega (arith, w.slots, w.fits)

  in_j : j < length h.clients
  in_j = omega (arith, w.slots, w.fits)

  -- The client indexes after the swap are the slots again.
  swap-indexed :
      (c : ℕ) → c < h.num_clients → ((swap h i j).cl (slot (swap h i j) c)).timerheap_index ≡ some c
  swap-indexed c hc = ground (
    arith,
    slot-swap h i j in_i in_j c,
    swap-timerheap_index h i j (slot (swap h i j) c),
    w.indexed i,
    w.indexed j,
    w.indexed c,
    w.small,
    w.fits,
  )

  pub swap-IsWired : IsWired (swap h i j)
  swap-IsWired = record {
    slots = rw (swap-num_slots h i j) (w.slots ∙ sym (length-swap h i j));
    power = rw (swap-num_slots h i j) w.power;
    small = rw (swap-num_slots h i j) w.small;
    few = rw (swap-num_clients h i j) w.few;
    fits = rw (swap-num_slots h i j, swap-num_clients h i j) w.fits;
    indexed = λ c hc. swap-indexed c (omega (arith, swap-num_clients h i j));
    nonnull = λ c hc. ground (
      arith,
      swap-num_clients h i j,
      slot-swap h i j in_i in_j c,
      w.nonnull c,
      w.nonnull i,
      w.nonnull j,
    );
    normal = λ p. rw (swap-auth_deadline h i j p) (w.normal p);
  }

  swap-member : (p : ℕ) → Holds h p → Holds (swap h i j) p
  swap-member p (c, lt, e) = (
    (if i == c then j else if j == c then i else c),
    ground (arith, swap-num_clients h i j),
    ground (
      arith,
      slot-swap h i j in_i in_j i,
      slot-swap h i j in_i in_j j,
      slot-swap h i j in_i in_j c,
    ),
  )

  swap-member_back : (p : ℕ) → Holds (swap h i j) p → Holds h p
  swap-member_back p (c, lt, e) = (
    (if i == c then j else if j == c then i else c),
    ground (arith, swap-num_clients h i j),
    ground (arith, slot-swap h i j in_i in_j c),
  )

  pub swap-Kept : Kept h (swap h i j)
  swap-Kept = record {
    same_num_clients = swap-num_clients h i j;
    same_num_slots = swap-num_slots h i j;
    same_deadline = swap-auth_deadline h i j;
    same_state = swap-cl_state h i j;
    same_members = λ p. (swap-member p, swap-member_back p);
    same_others = λ p n. swap-other h i j p (λ e. n (i, hi, e)) (λ e. n (j, hj, e));
  }
