-- ===== src/TimerHeap/Link.antt =====
-- cl_timerheap_add, and the time until the first deadline.
use lwmsg.Base.{
  ℕ, suc, ◌+◌, ◌*◌, ◌-◌, ◌%◌, ◌^◌, ◌≤◌, ◌<◌, ◌≡◌, ◌≢◌, ◌⊎◌, ◌↔◌, inl, inr, refl, sym, ap, ◌∙◌, ◌++◌,
  arith, ◌==◌, length, if◌then◌else◌, Bool-cases, true, some, length-append, length-replicate,
  get_or-append, get_or-set, length-set, set, replicate,
}
use lwmsg.TimerHeap.{
  TimerHeap, Timespec, slot, deadline, resize, add_at, cl_timerheap_add, update,
  cl_timerheap_compute_root_timediff, cl_timerheap_peek, clth_empty, clth_timeout, wait,
}
use lwmsg.TimerHeap.Slots.{key, IsWired, Holds}
use lwmsg.TimerHeap.Order.{parent, IsValid, Sifted, root_least}
use lwmsg.TimerHeap.Up.{UpInv, heapify_up-Sifted}
use native.Mathlib.Decide.{ℕ_discrete}
use native.Mathlib.Nat.{pow-suc, pow-le-pow_right, one-le-pow}

-- The deadline that cl_timerheap_add sets.
abbrev pub due : Timespec → ℕ → Timespec
due now deadline_time_len = record now { tv_sec = now.tv_sec + deadline_time_len }

-- `h'` is `h` with the client `p`, due at `t`.
pub record Added (h : TimerHeap) (p : ℕ) (t : Timespec) (h' : TimerHeap) : Type 0 where
  pub valid : IsValid h'
  pub count : h'.num_clients ≡ h.num_clients + 1
  pub members : (q : ℕ) → Holds h' q ↔ (Holds h q ⊎ (q ≡ p))
  pub new_deadline : (h'.cl p).auth_deadline ≡ t
  pub same_deadline : (q : ℕ) → q ≢ p → (h'.cl q).auth_deadline ≡ (h.cl q).auth_deadline
  pub same_state : (q : ℕ) → (h'.cl q).cl_state ≡ (h.cl q).cl_state
  pub same_index :
      (q : ℕ) → ¬ Holds h q → q ≢ p → (h'.cl q).timerheap_index ≡ (h.cl q).timerheap_index

module _ (h : TimerHeap) (p : ℕ) (len : ℕ) (now : Timespec) (v : IsValid h)
    (room : h.num_clients < h.num_slots) (few : suc h.num_clients < 2 ^ 31) (real : p ≢ 0)
    (new : ¬ Holds h p) (normal : now.tv_nsec < 10 ^ 9) where
  abbrev n : ℕ
  n = h.num_clients

  -- The state that the code sifts.
  abbrev placed : TimerHeap
  placed = record h {
    clients = set h.clients n p;
    num_clients = n + 1;
    cl = update h.cl p (record (h.cl p) { auth_deadline = due now len; timerheap_index = some n });
  }

  slots : (c : ℕ) → slot placed c ≡ (if n == c then p else slot h c)
  slots c = get_or-set h.clients n c p 0 (omega (arith, v.wired.slots))

  old : (c : ℕ) → c < n → slot h c ≢ p
  old c lt e = new (c, lt, e)

  keys : (c : ℕ) → c < n → key placed c ≡ key h c
  keys c lt = ground (arith, slots c, old c)

  placed-IsWired : IsWired placed
  placed-IsWired = record {
    slots = v.wired.slots ∙ sym (length-set h.clients n p);
    power = v.wired.power;
    small = v.wired.small;
    few = omega arith;
    fits = omega arith;
    indexed = λ c lt. ground (arith, slots c, old c, v.wired.indexed c);
    nonnull = λ c lt. ground (arith, slots c, v.wired.nonnull c);
    normal = λ q. ground (arith, v.wired.normal q);
  }

  placed-members : (q : ℕ) → Holds placed q ↔ (Holds h q ⊎ (q ≡ p))
  placed-members q = (
    λ (c, lt, e). elim (ℕ_discrete c n) [
      | yes at_end ↦ inr (ground (arith, slots c))
      | no ne ↦ inl (c, omega arith, ground (arith, slots c))
    ],
    elim [
      | inl (c, lt, e) ↦ (c, omega arith, ground (arith, slots c))
      | inr e ↦ (n, omega arith, ground (arith, slots n))
    ],
  )

  placed-UpInv : UpInv placed n
  placed-UpInv = record {
    inside = omega arith;
    edges = λ c q r s. ground (arith, keys c, keys (parent c), v.ordered c);
    bridged = λ c q r e s. absurd (omega arith);
  }

  Sifted-Added : (h' : TimerHeap) → Sifted placed h' → Added h p (due now len) h'
  Sifted-Added h' (valid, k) = record {
    valid = valid;
    count = k.same_num_clients;
    members = λ q.
        let m = placed-members q in
        let same = k.same_members q in (λ a. m.0 (same.1 a), λ a. same.0 (m.1 a));
    new_deadline = k.same_deadline p ∙ ground arith;
    same_deadline = λ q ne. k.same_deadline q ∙ ground arith;
    same_state = λ q. k.same_state q ∙ ground arith;
    same_index = λ q out ne.
        ap (λ c. c.timerheap_index)
          (k.same_others q (λ a. elim ((placed-members q).0 a) [ inl x ↦ out x | inr e ↦ ne e ]))
        ∙ ground (arith, ne);
  }

  add_at-Added :
      (h' : TimerHeap) × (add_at h p len now ≡ some (true, h')) × Added h p (due now len) h'
  unfolding add_at
  add_at-Added =
      let index : n % 2 ^ 32 ≡ n = omega arith in
      let (h', e, s) =
        heapify_up-Sifted (n + 1) placed n (omega arith) placed-IsWired placed-UpInv in
      rw (index, e) (h', refl, Sifted-Added h' s)

-- The heap with twice the slots.
module _ (h : TimerHeap) (v : IsValid h) (below : h.num_slots < 2 ^ 31) where
  abbrev slots_twice : ℕ
  slots_twice = h.num_slots * 2 % 2 ^ 32

  abbrev grown : TimerHeap
  grown = record h {
    clients = h.clients ++ replicate (slots_twice - h.num_slots) 0;
    num_slots = slots_twice;
  }

  resize-grown : resize h ≡ some grown
  unfolding resize
  resize-grown = ground arith

  grown-slot : (i : ℕ) → i < h.num_clients → slot grown i ≡ slot h i
  grown-slot i lt =
      get_or-append h.clients (replicate (slots_twice - h.num_slots) 0) i 0
        (omega (arith, v.wired.slots, v.wired.fits))

  grown-length : slots_twice ≡ length grown.clients
  grown-length = omega (
    arith,
    length-append h.clients (replicate (slots_twice - h.num_slots) 0),
    length-replicate {A = ℕ} (slots_twice - h.num_slots) 0,
    v.wired.slots,
  )

  grown-power : (k : ℕ) × (k ≤ 31) × (slots_twice ≡ 2 ^ k)
  grown-power =
      let (k, le, e) = v.wired.power in
      let not_last : k ≢ 31 = λ at. absurd (omega (arith, ap (λ t. 2 ^ t) at)) in
      (suc k, omega arith, omega (arith, pow-suc 2 k))

  grown-IsValid : IsValid grown
  grown-IsValid = record {
    wired = record {
      slots = grown-length;
      power = grown-power;
      small =
          let (k, le, e) = grown-power in omega (arith, pow-le-pow_right {n = 2} (omega arith) le);
      few = v.wired.few;
      fits = omega (arith, v.wired.fits);
      indexed = λ i lt. rw (grown-slot i lt) (v.wired.indexed i lt);
      nonnull = λ i lt. rw (grown-slot i lt) (v.wired.nonnull i lt);
      normal = v.wired.normal;
    };
    ordered = λ c a b. ground (arith, grown-slot c, grown-slot (parent c), v.ordered c);
  }

  grown-members : (q : ℕ) → Holds grown q ↔ Holds h q
  grown-members q =
      (λ (c, lt, e). (c, lt, sym (grown-slot c lt) ∙ e), λ (c, lt, e). (c, lt, grown-slot c lt ∙ e))

  grown-Added : {p : ℕ} {t : Timespec} {h' : TimerHeap} → Added grown p t h' → Added h p t h'
  grown-Added a = record {
    valid = a.valid;
    count = a.count;
    members = λ q.
        let g = grown-members q in
        let m = a.members q in
        (
          λ x. elim (m.0 x) [ inl y ↦ inl (g.0 y) | inr e ↦ inr e ],
          elim [ inl y ↦ m.1 (inl (g.1 y)) | inr e ↦ m.1 (inr e) ],
        );
    new_deadline = a.new_deadline;
    same_deadline = a.same_deadline;
    same_state = a.same_state;
    same_index = λ q out ne. a.same_index q (λ x. out ((grown-members q).0 x)) ne;
  }

-- cl_timerheap_add succeeds while there are fewer clients than file descriptors, growing the array
-- where it is full, and leaves a valid heap of the clients that were there and of the new one,
-- whose deadline is the time now and the given number of seconds.
pub add-Added :
    (h : TimerHeap) (p len : ℕ) (now : Timespec)
    → IsValid h
    → suc h.num_clients < 2 ^ 31
    → p ≢ 0
    → ¬ Holds h p
    → now.tv_nsec < 10 ^ 9
    → (h' : TimerHeap) × (cl_timerheap_add h p len now ≡ some (true, h'))
      × Added h p (due now len) h'
unfolding cl_timerheap_add
add-Added h p len now v few real new normal = elim (Bool-cases (h.num_clients == h.num_slots)) [
  | inl full ↦
      let below : h.num_slots < 2 ^ 31 = ground arith in
      let (k, _, slots_eq) = v.wired.power in
      let room : h.num_clients < h.num_slots * 2 % 2 ^ 32 =
        ground (arith, one-le-pow k 2, slots_eq) in
      let (h', e, a) =
        add_at-Added (grown h v below) p len now (grown-IsValid h v below) room few real
          (λ m. new ((grown-members h v below p).0 m)) normal in
      rw (full, resize-grown h v below, e) (h', refl, grown-Added h v below a)
  | inr free ↦
      rw free (add_at-Added h p len now v (ground (arith, v.wired.fits)) few real new normal)
]

-- The heap reports that it is empty exactly when it holds no client.
pub root_timediff-empty_iff :
    (h : TimerHeap) (target_state : ℕ) (now : Timespec)
    → IsValid h
    → (cl_timerheap_compute_root_timediff h target_state now ≡ clth_empty) ↔ (h.num_clients ≡ 0)
unfolding cl_timerheap_compute_root_timediff cl_timerheap_peek
root_timediff-empty_iff h target_state now v = ground (arith, v.wired.nonnull 0)

-- A timeout is reported exactly when the client that is due first is in the given state, and the
-- second of its deadline has come.
pub root_timediff-timeout_iff :
    (h : TimerHeap) (target_state : ℕ) (now : Timespec)
    → IsValid h
    → (cl_timerheap_compute_root_timediff h target_state now ≡ clth_timeout) ↔ (
        (0 < h.num_clients)
        × ((h.cl (slot h 0)).cl_state ≡ target_state)
        × ((deadline h 0).tv_sec ≤ now.tv_sec))
unfolding cl_timerheap_compute_root_timediff cl_timerheap_peek
root_timediff-timeout_iff h target_state now v = ground (arith, v.wired.nonnull 0)

-- The milliseconds that the heap says to wait are some, and end, counted from the second of the clock, no
-- later than the second of any deadline in the heap.
pub root_timediff-wait :
    (h : TimerHeap) (target_state : ℕ) (now : Timespec) (ms : ℕ)
    → IsValid h
    → cl_timerheap_compute_root_timediff h target_state now ≡ wait ms
    → (0 < ms)
      × ((i : ℕ) → i < h.num_clients → now.tv_sec * 1000 + ms ≤ (deadline h i).tv_sec * 1000)
unfolding cl_timerheap_compute_root_timediff cl_timerheap_peek
root_timediff-wait h target_state now ms v e = (
  ground arith,
  λ i lt.
      ground
        (arith, root_least h i v.ordered lt, v.wired.normal (slot h 0), v.wired.normal (slot h i)),
)

root_timediff-exact :
    (h : TimerHeap) (target_state : ℕ) (now : Timespec) (ms : ℕ)
    → cl_timerheap_compute_root_timediff h target_state now ≡ wait ms
    → now.tv_sec * 1000 + ms ≡ (deadline h 0).tv_sec * 1000
unfolding cl_timerheap_compute_root_timediff cl_timerheap_peek
root_timediff-exact h target_state now ms e = ground arith

-- In a valid heap, with a clock of less than a second of nanoseconds, the milliseconds that the heap says
-- to wait are some, and the wait ends less than a second after any deadline in the heap, and no
-- earlier than a second before the one that is due first.
pub root_timediff-on_time :
    (h : TimerHeap) (target_state : ℕ) (now : Timespec) (ms : ℕ)
    → IsValid h
    → now.tv_nsec < 10 ^ 9
    → cl_timerheap_compute_root_timediff h target_state now ≡ wait ms
    → (0 < ms)
      × (((deadline h 0).tv_sec * 10 ^ 9 + (deadline h 0).tv_nsec)
          < (now.tv_sec * 10 ^ 9 + now.tv_nsec) + ms * 10 ^ 6 + 10 ^ 9)
      × ((i : ℕ)
          → i < h.num_clients
          → (now.tv_sec * 10 ^ 9 + now.tv_nsec) + ms * 10 ^ 6
            < ((deadline h i).tv_sec * 10 ^ 9 + (deadline h i).tv_nsec) + 10 ^ 9)
root_timediff-on_time h target_state now ms v normal e =
    let (pos, bound) = root_timediff-wait h target_state now ms v e in
    let first = root_timediff-exact h target_state now ms e in
    (
      pos,
      omega (arith, first, v.wired.normal (slot h 0)),
      λ i lt. omega (arith, bound i lt, normal),
    )
