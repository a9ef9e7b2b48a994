-- ===== src/Worker/Expiry.antt =====
-- The loop of handle_clth_timeout of server/worker.c.
use lwmsg.Base.{
  ℕ, zero, suc, ◌+◌, ◌≤◌, ◌<◌, inl, inr, refl, sym, subst, arith, none, some, ◌∷◌, Returns,
}
use lwmsg.TimerHeap.{Timespec, slot, deadline, cl_timerheap_compute_root_timediff, cl_timerheap_pop}
use lwmsg.TimerHeap.Unlink.{pop-Removed}
use lwmsg.TimerHeap.Link.{root_timediff-empty_iff, root_timediff-timeout_iff, root_timediff-wait}
use lwmsg.ClHandle.RegList.{InList}
use lwmsg.Worker.{
  Worker, accepted, auth_send_resp, auth_resp_timeout, cleanup_std_client, handle_clth_timeout,
}
use lwmsg.Worker.Safe.{IsSafe}
use lwmsg.Worker.Release.{cleanup-Released}
use lwmsg.Worker.Timeout.{
  TimeDiff-cases, not_applicable-root, popped-IsSafe, Expired, Expired-refl, Expired-trans, Answers,
  responses-IsSafe, Expired-client,
}

-- The round that finds the client due first too late.
Expired-round :
    (clock : ℕ → Timespec) (i : ℕ) (w : Worker)
    → IsSafe w
    → 0 < w.clth.num_clients
    → (deadline w.clth 0).tv_sec ≤ (clock i).tv_sec
    → Returns
        (λ (p, h').
          Returns
            (λ w'. Expired clock w w' × (w'.clth.num_clients < w.clth.num_clients))
            (cleanup_std_client (auth_send_resp (record w { clth = h' }) p auth_resp_timeout) p))
        (cl_timerheap_pop w.clth)
Expired-round clock i w s some_left late =
    let ((p, h'), run, (at_root, r, least)) = pop-Removed w.clth s.valid some_left in
    let listed : InList p w.preauth_list =
      subst (λ q. InList q w.preauth_list) (sym at_root)
        (s.held (slot w.clth 0) (0, some_left, refl)).0 in
    let popped = auth_send_resp (record w { clth = h' }) p auth_resp_timeout in
    let sp : IsSafe popped =
      responses-IsSafe (record w { clth = h' }) ((p, auth_resp_timeout) ∷ w.responses)
        (popped-IsSafe w p h' s r) in
    let (w', run', out) = cleanup-Released popped p sp listed in
    (
      (p, h'),
      run,
      (
        w',
        run',
        (
          Expired-client clock i w p h' w' listed r
              (subst (λ q. (w.clth.cl q).auth_deadline.tv_sec ≤ (clock i).tv_sec) (sym at_root)
                late)
              out,
          omega (arith, out.without.count, r.count),
        ),
      ),
    )

-- In a safe worker, with a fuel of one more than the clients in the heap, handle_clth_timeout
-- ends. A client of the list stays there, or the second of its deadline had come, it was sent
-- AUTH_RESP_TIMEOUT, and it is freed; a client of the heap stays there, or is freed; no other client
-- is freed. The answer is -1 if the heap is left empty, and else a wait that is not zero and,
-- counted from the second of a reading of the clock, ends no later than the second of any deadline
-- left in the heap.
pub handle_clth_timeout-Expired :
    (fuel : ℕ) (clock : ℕ → Timespec) (i : ℕ) (w : Worker)
    → IsSafe w
    → w.clth.num_clients < fuel
    → Returns
        (λ (r, w'). Expired clock w w' × Answers clock w' r)
        (handle_clth_timeout fuel clock i w)
unfolding handle_clth_timeout
handle_clth_timeout-Expired zero clock i w s enough = absurd (omega arith)
handle_clth_timeout-Expired (suc fuel) clock i w s enough =
    elim (TimeDiff-cases (cl_timerheap_compute_root_timediff w.clth accepted (clock i))) [
      | inl e ↦ (
        (none, w),
        rw (e, handle_clth_timeout) refl,
        (Expired-refl clock w s, (root_timediff-empty_iff w.clth accepted (clock i) s.valid).0 e),
      )
      | inr (inl e) ↦
          let (some_left, _, late) =
            (root_timediff-timeout_iff w.clth accepted (clock i) s.valid).0 e in
          let ((p, h'), popped, (w1, cleaned, (round, fewer))) =
            Expired-round clock i w s some_left late in
          let ((r, w2), run, (rest, answer)) =
            handle_clth_timeout-Expired fuel clock (i + 1) w1 round.safe (omega arith) in
          (
            (r, w2),
            rw (e, popped, cleaned, handle_clth_timeout) run,
            (Expired-trans round rest, answer),
          )
      | inr (inr (inl e)) ↦
          let (some_left, not_accepted) = not_applicable-root w.clth accepted (clock i) s.valid e in
          absurd (not_accepted (s.held (slot w.clth 0) (0, some_left, refl)).1)
      | inr (inr (inr (ms, e))) ↦
          let (positive, bound) = root_timediff-wait w.clth accepted (clock i) ms s.valid e in
          (
            (some ms, w),
            rw (e, handle_clth_timeout) refl,
            (Expired-refl clock w s, (positive, (i, bound))),
          )
    ]
