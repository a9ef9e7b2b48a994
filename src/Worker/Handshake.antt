-- ===== src/Worker/Handshake.antt =====
-- wt_handle_accepting of server/worker.c.
use lwmsg.Base.{
  ℕ, suc, ◌^◌, ◌<◌, ◌≡◌, ◌≢◌, inl, inr, refl, sym, subst, arith, Bool-cases, ◌==◌, Returns,
}
use lwmsg.TimerHeap.{TimerHeap, Timespec}
use lwmsg.TimerHeap.Slots.{Holds}
use lwmsg.TimerHeap.Link.{Added, add-Added, due}
use lwmsg.ClHandle.RegList.{InList}
use lwmsg.Worker.{
  Worker, AcceptResult, accept_done, accept_error, accept_in_progress, cl_state, accepting,
  accepted, set_state, clth_auth_maxperm_time, wt_handle_accepting,
}
use lwmsg.Worker.Safe.{IsSafe, set_state-IsValid}
use lwmsg.Worker.Release.{Released, cleanup-Released, unlinked-out}

-- What becomes of an ACCEPTING client `p` of `w` by the end of its handshake.
abbrev pub Handshaken : Worker → ℕ → AcceptResult → Worker → Type 0
Handshaken w p accept_error w' = Released w p w'
Handshaken w p accept_in_progress w' = w' ≡ w
Handshaken w p accept_done w' =
    IsSafe w'
    × Holds w'.clth p
    × (cl_state w' p ≡ accepted)
    × (w'.preauth_list ≡ w.preauth_list)
    × (w'.live ≡ w.live)

accepted-IsSafe :
    (w : Worker) (p : ℕ) (now : Timespec) (h' : TimerHeap)
    → IsSafe w
    → InList p w.preauth_list
    → Added w.clth p (due now clth_auth_maxperm_time) h'
    → IsSafe (set_state (record w { clth = h' }) p accepted)
accepted-IsSafe w p now h' s m a = record {
  valid = set_state-IsValid (record w { clth = h' }) p accepted a.valid;
  distinct = s.distinct;
  held = λ q h. elim ((a.members q).0 h) [
    | inl old ↦ let (listed, st) = s.held q old in (listed, ground (arith, a.same_state q, st))
    | inr q_p ↦ (subst (λ c. InList c w.preauth_list) (sym q_p) m, ground (arith, q_p))
  ];
  listed = λ q mq.
      let (nonnull, live, st) = s.listed q mq in
      (nonnull, live, ground (arith, a.same_state q, st));
  indexed = λ q mq. elim (s.indexed q mq) [
    | inl h ↦ inl ((a.members q).1 (inl h))
    | inr at ↦ elim (Bool-cases (q == p)) [
      | inl same ↦ inl ((a.members q).1 (inr (ground arith)))
      | inr different ↦
          let ne : q ≢ p = ground arith in
          inr (ground (arith, a.same_index q (unlinked-out w.clth q s.valid at) ne, at))
    ]
  ];
}

-- The end of the handshake of an ACCEPTING client: it gets a deadline in the timer heap and is
-- ACCEPTED, or nothing changes, or it is released; the worker stays safe.
pub wt_handle_accepting-Handshaken :
    (w : Worker) (p : ℕ) (ares : AcceptResult) (now : Timespec)
    → IsSafe w
    → InList p w.preauth_list
    → cl_state w p ≡ accepting
    → suc w.clth.num_clients < 2 ^ 31
    → now.tv_nsec < 10 ^ 9
    → Returns (Handshaken w p ares) (wt_handle_accepting w p ares now)
unfolding wt_handle_accepting
wt_handle_accepting-Handshaken w p accept_error now s m st few normal = cleanup-Released w p s m
wt_handle_accepting-Handshaken w p accept_in_progress now s m st few normal = (w, refl, refl)
wt_handle_accepting-Handshaken w p accept_done now s m st few normal =
    let out : ¬ Holds w.clth p = λ h. absurd (omega (arith, st, (s.held p h).1)) in
    let (h', run, a) =
      add-Added w.clth p clth_auth_maxperm_time now s.valid few (s.listed p m).0 out normal in
    (
      _,
      rw (run, wt_handle_accepting) refl,
      (accepted-IsSafe w p now h' s m a, (a.members p).1 (inr refl), ground arith, refl, refl),
    )
