-- ===== src/Worker/Timeout.antt =====
-- handle_clth_timeout of server/worker.c.
use lwmsg.Base.{
  ℕ, ◌+◌, ◌*◌, ◌≤◌, ◌<◌, ◌≡◌, ◌≢◌, ◌⊎◌, inl, inr, refl, sym, subst, ◌∙◌, arith, false, Bool-cases,
  none, some, List, [], ◌∷◌, ◌==◌, Option,
}
use lwmsg.TimerHeap.{
  TimerHeap, Timespec, TimeDiff, clth_empty, clth_timeout, clth_not_applicable, wait, slot,
  deadline, cl_timerheap_compute_root_timediff, cl_timerheap_peek,
}
use lwmsg.TimerHeap.Slots.{Holds}
use lwmsg.TimerHeap.Order.{IsValid}
use lwmsg.TimerHeap.Unlink.{Removed}
use lwmsg.ClHandle.RegList.{InList}
use lwmsg.Worker.{Worker, auth_send_resp, auth_resp_timeout}
use lwmsg.Worker.Safe.{IsSafe, unlisted}
use lwmsg.Worker.Release.{Released, unlinked-out}

pub TimeDiff-cases :
    (t : TimeDiff)
    → (t ≡ clth_empty) ⊎ (t ≡ clth_timeout) ⊎ (t ≡ clth_not_applicable) ⊎ ((ms : ℕ) × (t ≡ wait ms))
TimeDiff-cases clth_empty = inl refl
TimeDiff-cases clth_timeout = inr (inl refl)
TimeDiff-cases clth_not_applicable = inr (inr (inl refl))
TimeDiff-cases (wait ms) = inr (inr (inr (ms, refl)))

pub not_applicable-root :
    (h : TimerHeap) (target_state : ℕ) (now : Timespec)
    → IsValid h
    → cl_timerheap_compute_root_timediff h target_state now ≡ clth_not_applicable
    → (0 < h.num_clients) × ((h.cl (slot h 0)).cl_state ≢ target_state)
unfolding cl_timerheap_compute_root_timediff cl_timerheap_peek
not_applicable-root h target_state now v e = ground (arith, e, v.wired.nonnull 0)

-- A popped client stays listed, without an index.
pub popped-IsSafe :
    (w : Worker) (p : ℕ) (h' : TimerHeap)
    → IsSafe w
    → Removed w.clth p h'
    → IsSafe (record w { clth = h' })
popped-IsSafe w p h' s r = record {
  valid = r.valid;
  distinct = s.distinct;
  held = λ q hq.
      let (listed, state) = s.held q ((r.members q).0 hq).0 in (listed, r.same_state q ∙ state);
  listed = λ q m.
      let (real, live, state) = s.listed q m in (real, live, ground (arith, r.same_state q, state));
  indexed = λ q m. popped_index q (s.indexed q m);
}
  where
    popped_index :
        (q : ℕ)
        → Holds w.clth q ⊎ ((w.clth.cl q).timerheap_index ≡ none)
        → Holds h' q ⊎ ((h'.cl q).timerheap_index ≡ none)
    popped_index q (inr e) = elim (Bool-cases (q == p)) [
      | inl same ↦
          let q_p : q ≡ p = ground arith in
          inr (subst (λ c. (h'.cl c).timerheap_index ≡ none) (sym q_p) r.unlinked)
      | inr other ↦ inr (r.same_index q (unlinked-out w.clth q s.valid e) (ground arith) ∙ e)
    ]
    popped_index q (inl hq) = elim (Bool-cases (q == p)) [
      | inl same ↦
          let q_p : q ≡ p = ground arith in
          inr (subst (λ c. (h'.cl c).timerheap_index ≡ none) (sym q_p) r.unlinked)
      | inr other ↦ inl ((r.members q).1 (hq, ground arith))
    ]

-- The client was sent AUTH_RESP_TIMEOUT.
abbrev pub WasTold : ℕ → List (ℕ × ℕ) → Type 0
WasTold q [] = ⊥
WasTold q ((p, code) ∷ sent) = ((q ≡ p) × (code ≡ auth_resp_timeout)) ⊎ WasTold q sent

-- What the rounds from `w` to `w'` did: a client of the list is still there, or the second of its
-- deadline had come by a reading of the clock, it was sent AUTH_RESP_TIMEOUT, and it is freed. A client
-- of the heap is still in the heap, or is freed. No other client is touched.
pub record Expired (clock : ℕ → Timespec) (w w' : Worker) : Type 0 where
  pub safe : IsSafe w'
  pub subset : (q : ℕ) → InList q w'.preauth_list → InList q w.preauth_list
  pub due :
      (q : ℕ)
      → InList q w.preauth_list
      → InList q w'.preauth_list
        ⊎ ((w'.live q ≡ false)
            × WasTold q w'.responses
            × ((i : ℕ) × ((w.clth.cl q).auth_deadline.tv_sec ≤ (clock i).tv_sec)))
  pub kept : (q : ℕ) → Holds w.clth q → Holds w'.clth q ⊎ (w'.live q ≡ false)
  pub told : (q : ℕ) → WasTold q w.responses → WasTold q w'.responses
  pub others : (q : ℕ) → ¬ InList q w.preauth_list → w'.live q ≡ w.live q
  pub same_deadline : (q : ℕ) → (w'.clth.cl q).auth_deadline ≡ (w.clth.cl q).auth_deadline

pub Expired-refl : (clock : ℕ → Timespec) (w : Worker) → IsSafe w → Expired clock w w
Expired-refl clock w s = record {
  safe = s;
  subset = λ q m. m;
  due = λ q m. inl m;
  kept = λ q h. inl h;
  told = λ q t. t;
  others = λ q out. refl;
  same_deadline = λ q. refl;
}

pub Expired-trans :
    {clock : ℕ → Timespec} {a b c : Worker}
    → Expired clock a b
    → Expired clock b c
    → Expired clock a c
Expired-trans {clock} {a} {b} {c} ab bc = record {
  safe = bc.safe;
  subset = λ q m. ab.subset q (bc.subset q m);
  due = λ q m. elim (ab.due q m) [
    | inr (dead, t, at) ↦ inr (bc.others q (unlisted b q ab.safe dead) ∙ dead, bc.told q t, at)
    | inl kept ↦ elim (bc.due q kept) [
      | inl still ↦ inl still
      | inr (dead, t, (i, le)) ↦
          inr (dead, t, (i, subst (λ t. t.tv_sec ≤ (clock i).tv_sec) (ab.same_deadline q) le))
    ]
  ];
  kept = λ q h. elim (ab.kept q h) [
    | inl held ↦ bc.kept q held
    | inr dead ↦ inr (bc.others q (unlisted b q ab.safe dead) ∙ dead)
  ];
  told = λ q t. bc.told q (ab.told q t);
  others = λ q out. bc.others q (λ m. out (ab.subset q m)) ∙ ab.others q out;
  same_deadline = λ q. bc.same_deadline q ∙ ab.same_deadline q;
}

-- What handle_clth_timeout answers: -1 for an empty heap, else milliseconds, more than none, that,
-- counted from the second of a reading of the clock, end no later than the second of any deadline in
-- the heap.
abbrev pub Answers : (ℕ → Timespec) → Worker → Option ℕ → Type 0
Answers clock w none = w.clth.num_clients ≡ 0
Answers clock w (some ms) =
    (0 < ms)
    × ((i : ℕ) × ((j : ℕ)
          → j < w.clth.num_clients
          → (clock i).tv_sec * 1000 + ms ≤ (deadline w.clth j).tv_sec * 1000))

-- The codes that were sent do not bear on the clients.
pub responses-IsSafe :
    (w : Worker) (sent : List (ℕ × ℕ)) → IsSafe w → IsSafe (record w { responses = sent })
responses-IsSafe w sent s = record {
  valid = s.valid;
  distinct = s.distinct;
  held = s.held;
  listed = s.listed;
  indexed = s.indexed;
}

pub Expired-client :
    (clock : ℕ → Timespec) (i : ℕ) (w : Worker) (p : ℕ) (h' : TimerHeap) (w' : Worker)
    → InList p w.preauth_list
    → Removed w.clth p h'
    → (w.clth.cl p).auth_deadline.tv_sec ≤ (clock i).tv_sec
    → Released (auth_send_resp (record w { clth = h' }) p auth_resp_timeout) p w'
    → Expired clock w w'
Expired-client clock i w p h' w' listed r late out = record {
  safe = out.safe;
  subset = λ q m. ((out.members q).0 m).0;
  due = λ q m. elim (Bool-cases (q == p)) [
    | inl same ↦
        let q_p : q ≡ p = ground arith in
        inr (
          subst
            (λ c.
              (w'.live c ≡ false)
              × WasTold c w'.responses
              × ((j : ℕ) × ((w.clth.cl c).auth_deadline.tv_sec ≤ (clock j).tv_sec)))
            (sym q_p)
            (out.freed, subst (WasTold p) (sym out.same_responses) (inl (refl, refl)), (i, late)))
    | inr other ↦ inl ((out.members q).1 (m, ground arith))
  ];
  kept = λ q h. elim (Bool-cases (q == p)) [
    | inl same ↦
        let q_p : q ≡ p = ground arith in inr (subst (λ c. w'.live c ≡ false) (sym q_p) out.freed)
    | inr other ↦
        let ne : q ≢ p = ground arith in
        inl ((out.without.members q).1 ((r.members q).1 (h, ne), ne))
  ];
  told = λ q t. subst (WasTold q) (sym out.same_responses) (inr t);
  others = λ q outside.
      out.others_live q (λ e. outside (subst (λ c. InList c w.preauth_list) (sym e) listed));
  same_deadline = λ q. out.without.same_deadline q ∙ r.same_deadline q;
}
