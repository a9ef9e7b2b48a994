-- ===== src/Worker/Connect.antt =====
-- wt_handle_new_connections and wt_handle_accepting of server/worker.c.
use lwmsg.Base.{
  ℕ, suc, ◌^◌, ◌<◌, ◌≡◌, ◌≢◌, ◌↔◌, ◌⊎◌, inl, inr, refl, sym, subst, ◌∙◌, arith, Bool, true, false,
  none, Returns,
}
use lwmsg.TimerHeap.{Timespec}
use lwmsg.TimerHeap.Slots.{Holds}
use lwmsg.TimerHeap.Order.{IsValid}
use lwmsg.TimerHeap.Link.{due, add-Added}
use lwmsg.ClHandle.RegList.{InList, IsDistinct}
use lwmsg.Htable.NodeList.{
  intrusive_list_add, intrusive_list_add-InList, intrusive_list_add-IsDistinct,
}
use lwmsg.Worker.{
  Worker, AcceptResult, accept_done, accept_error, accept_in_progress, cl_state, accepting,
  accepted, set_state, set_live, free_client, clth_auth_maxperm_time, create_std_client,
  new_connection,
}
use lwmsg.Worker.Safe.{IsSafe, set_state-IsValid, update-IsValid, unlisted}
use lwmsg.Worker.Release.{unlinked-out}

-- `w1` is `w` with a client `p` that is allocated and about to be listed.
record Enters (w : Worker) (p : ℕ) (w1 : Worker) : Type 0 where
  valid : IsValid w1.clth
  same_list : w1.preauth_list ≡ w.preauth_list
  live : (q : ℕ) → w1.live q ≡ set_live w.live p true q
  kept : (q : ℕ) → Holds w.clth q → Holds w1.clth q
  entered : (q : ℕ) → Holds w1.clth q → Holds w.clth q ⊎ ((q ≡ p) × (cl_state w1 p ≡ accepted))
  same_state : (q : ℕ) → q ≢ p → cl_state w1 q ≡ cl_state w q
  same_deadline : (q : ℕ) → q ≢ p → (w1.clth.cl q).auth_deadline ≡ (w.clth.cl q).auth_deadline
  state : (cl_state w1 p ≡ accepting) ⊎ (cl_state w1 p ≡ accepted)
  same_index :
      (q : ℕ)
      → ¬ Holds w.clth q
      → q ≢ p
      → (w1.clth.cl q).timerheap_index ≡ (w.clth.cl q).timerheap_index
  index : Holds w1.clth p ⊎ ((w1.clth.cl p).timerheap_index ≡ none)

abbrev pub is_accepted : AcceptResult → Bool
is_accepted accept_done = true
is_accepted accept_in_progress = true
is_accepted accept_error = false

-- The state and the deadline of the client, by the answer of accept_fn.
abbrev pub Timed : ℕ → Timespec → Worker → AcceptResult → Type 0
Timed p now w' accept_done =
    Holds w'.clth p
    × (cl_state w' p ≡ accepted)
    × ((w'.clth.cl p).auth_deadline ≡ due now clth_auth_maxperm_time)
Timed p now w' accept_in_progress = (¬ Holds w'.clth p) × (cl_state w' p ≡ accepting)
Timed p now w' accept_error = ¬ Holds w'.clth p

-- What a new connection at the address `p` leaves of `w`: `w'` has the client, unless the handshake
-- failed, and the others stay as they were.
pub record Connected (w : Worker) (p : ℕ) (now : Timespec) (ares : AcceptResult) (w' : Worker)
    : Type 0 where
  pub safe : IsSafe w'
  pub members :
      (q : ℕ)
      → InList q w'.preauth_list ↔ (InList q w.preauth_list ⊎ ((q ≡ p) × (is_accepted ares ≡ true)))
  pub live : w'.live p ≡ is_accepted ares
  pub timed : Timed p now w' ares
  pub others_state : (q : ℕ) → q ≢ p → cl_state w' q ≡ cl_state w q
  pub others_deadline : (q : ℕ) → q ≢ p → (w'.clth.cl q).auth_deadline ≡ (w.clth.cl q).auth_deadline
  pub others_held : (q : ℕ) → q ≢ p → Holds w'.clth q ↔ Holds w.clth q
  pub others_live : (q : ℕ) → q ≢ p → w'.live q ≡ w.live q

module _ (w : Worker) (p : ℕ) (s : IsSafe w) (fresh : w.live p ≡ false) (real : p ≢ 0) where
  other : {q : ℕ} → InList q w.preauth_list → q ≢ p
  other m e = unlisted w p s fresh (subst (λ c. InList c w.preauth_list) e m)

  unheld : ¬ Holds w.clth p
  unheld h = unlisted w p s fresh (s.held p h).0

  enlist-Connected :
      (w1 : Worker) (now : Timespec) (ares : AcceptResult)
      → is_accepted ares ≡ true
      → Enters w p w1
      → Timed p now (record w1 { preauth_list = intrusive_list_add w1.preauth_list p }) ares
      → Connected w p now ares (record w1 { preauth_list = intrusive_list_add w1.preauth_list p })
  enlist-Connected w1 now ares here e timed =
      let w2 = record w1 { preauth_list = intrusive_list_add w1.preauth_list p } in
      let members : (q : ℕ) → InList q w2.preauth_list ↔ ((q ≡ p) ⊎ InList q w.preauth_list) = λ q.
        subst (λ l. InList q w2.preauth_list ↔ ((q ≡ p) ⊎ InList q l)) e.same_list
          (intrusive_list_add-InList w1.preauth_list p q) in
      record {
        safe = record {
          valid = e.valid;
          distinct =
              subst (λ l. IsDistinct (intrusive_list_add l p)) (sym e.same_list)
                (intrusive_list_add-IsDistinct w.preauth_list p (unlisted w p s fresh) s.distinct);
          held = λ q h. elim (e.entered q h) [
            | inl old ↦
                let (m, st) = s.held q old in ((members q).1 (inr m), e.same_state q (other m) ∙ st)
            | inr (q_p, st) ↦
                ((members q).1 (inl q_p), subst (λ c. cl_state w1 c ≡ accepted) (sym q_p) st)
          ];
          listed = λ q m. elim ((members q).0 m) [
            | inl q_p ↦
                subst
                  (λ c.
                    (c ≢ 0)
                    × (w1.live c ≡ true)
                    × ((cl_state w1 c ≡ accepting) ⊎ (cl_state w1 c ≡ accepted)))
                  (sym q_p) (real, ground (arith, e.live p), e.state)
            | inr old ↦
                let (nonnull, live, st) = s.listed q old in
                (
                  nonnull,
                  ground (arith, e.live q, live),
                  subst (λ n. (n ≡ accepting) ⊎ (n ≡ accepted)) (sym (e.same_state q (other old)))
                      st,
                )
          ];
          indexed = λ q m. elim ((members q).0 m) [
            | inl q_p ↦
                subst (λ c. Holds w1.clth c ⊎ ((w1.clth.cl c).timerheap_index ≡ none)) (sym q_p)
                  e.index
            | inr old ↦ elim (s.indexed q old) [
              | inl h ↦ inl (e.kept q h)
              | inr at ↦ inr (e.same_index q (unlinked-out w.clth q s.valid at) (other old) ∙ at)
            ]
          ];
        };
        members = λ q. (
          λ m. elim ((members q).0 m) [ inl q_p ↦ inr (q_p, here) | inr old ↦ inl old ],
          λ m. (members q).1 (elim m [ inl old ↦ inr old | inr (q_p, _) ↦ inl q_p ]),
        );
        live = sym (here ∙ ground (arith, e.live p));
        timed = timed;
        others_state = e.same_state;
        others_deadline = e.same_deadline;
        others_held = λ q ne. (
          λ h. elim (e.entered q h) [ inl old ↦ old | inr (q_p, _) ↦ absurd (ne q_p) ],
          e.kept q,
        );
        others_live = λ q ne. ground (arith, e.live q);
      }

-- The bounds that a connection needs.
abbrev pub HasRoom : Worker → ℕ → Type 0
HasRoom w p = (w.live p ≡ false) × (p ≢ 0) × (suc w.clth.num_clients < 2 ^ 31)

module _ (w : Worker) (p : ℕ) (now : Timespec) (s : IsSafe w) (room : HasRoom w p)
    (normal : now.tv_nsec < 10 ^ 9) where
  made : Worker
  made = create_std_client w p

  out : ¬ Holds w.clth p
  out = unheld w p s room.0 room.1

  made-IsValid : IsValid made.clth
  unfolding made create_std_client
  made-IsValid = update-IsValid w.clth p _ s.valid out (omega arith)

  new_connection-in_progress :
      Returns (Connected w p now accept_in_progress) (new_connection w p accept_in_progress now)
  unfolding new_connection made
  new_connection-in_progress = (
    _,
    refl,
    enlist-Connected w p s room.0 room.1 (set_state made p accepting) now accept_in_progress refl
        (record {
          valid = set_state-IsValid made p accepting made-IsValid;
          same_list = refl;
          live = λ q. refl;
          kept = λ q h. h;
          entered = λ q h. inl h;
          same_state = λ q ne. ground arith;
          same_deadline = λ q ne. ground arith;
          state = ground arith;
          same_index = λ q gone ne. ground arith;
          index = inr (ground arith);
        })
        (out, ground arith),
  )

  new_connection-done : Returns (Connected w p now accept_done) (new_connection w p accept_done now)
  unfolding new_connection made
  new_connection-done =
      let w0 = set_state made p accepted in
      let (h', run, a) =
        add-Added w0.clth p clth_auth_maxperm_time now
          (set_state-IsValid made p accepted made-IsValid) room.2 room.1 out normal in
      let w1 = record w0 { clth = h' } in
      (
        _,
        rw (run, new_connection) refl,
        enlist-Connected w p s room.0 room.1 w1 now accept_done refl
            (record {
              valid = a.valid;
              same_list = refl;
              live = λ q. refl;
              kept = λ q h. (a.members q).1 (inl h);
              entered = λ q h. elim ((a.members q).0 h) [
                | inl old ↦ inl old
                | inr q_p ↦ inr (q_p, ground (arith, a.same_state p))
              ];
              same_state = λ q ne. ground (arith, a.same_state q);
              same_deadline = λ q ne. a.same_deadline q ne ∙ ground arith;
              state = inr (ground (arith, a.same_state p));
              same_index = λ q gone ne. ground (arith, a.same_index q gone ne);
              index = inl ((a.members p).1 (inr refl));
            })
            ((a.members p).1 (inr refl), ground (arith, a.same_state p), a.new_deadline),
      )

  new_connection-error :
      Returns (Connected w p now accept_error) (new_connection w p accept_error now)
  unfolding new_connection made
  new_connection-error = (
    free_client made p,
    ground arith,
    record {
      safe = record {
        valid = made-IsValid;
        distinct = s.distinct;
        held =
            λ q h. let (m, st) = s.held q h in (m, ground (arith, other w p s room.0 room.1 m, st));
        listed = λ q m.
            let (nonnull, live, st) = s.listed q m in
            let ne = other w p s room.0 room.1 m in
            (nonnull, ground (arith, live, ne), ground (arith, st, ne));
        indexed = λ q m. elim (s.indexed q m) [
          | inl h ↦ inl h
          | inr at ↦ inr (ground (arith, at, other w p s room.0 room.1 m))
        ];
      };
      members = λ q. (λ m. inl m, λ m. elim m [ inl old ↦ old | inr (_, e) ↦ (cc) ]);
      live = ground arith;
      timed = out;
      others_state = λ q ne. ground arith;
      others_deadline = λ q ne. ground arith;
      others_held = λ q ne. (λ h. h, λ h. h);
      others_live = λ q ne. ground arith;
    },
  )

-- In a safe worker with fewer than 2 ^ 31 - 1 clients in the heap, a connection, for which malloc
-- gives an address that is not in use and not NULL, and the clock a normal time, leaves the worker
-- safe. The client is allocated and in the list, unless the handshake failed, after which it is
-- freed. A client that is ACCEPTED is in the heap, due CLTH_AUTH_MAXPERM_TIME after `now`, and one
-- that is ACCEPTING is not in the heap. The memory, the state, the deadline, and the place in the
-- list or the heap of every other client are as before.
pub new_connection-Connected :
    (w : Worker) (p : ℕ) (ares : AcceptResult) (now : Timespec)
    → IsSafe w
    → HasRoom w p
    → now.tv_nsec < 10 ^ 9
    → Returns (Connected w p now ares) (new_connection w p ares now)
new_connection-Connected w p accept_done now s room normal =
    new_connection-done w p now s room normal
new_connection-Connected w p accept_in_progress now s room normal =
    new_connection-in_progress w p now s room normal
new_connection-Connected w p accept_error now s room normal =
    new_connection-error w p now s room normal
