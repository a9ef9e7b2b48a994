-- ===== src/Worker/Answer.antt =====
-- A call of wt_handle_authentication of server/worker.c.
use lwmsg.Base.{
  ℕ, zero, suc, ◌+◌, ◌-◌, ◌<◌, ◌≡◌, inl, inr, refl, sym, ap, subst, ◌∙◌, arith, Bool-cases, some,
  ◌++◌, ltb, length, length-append, Returns, Option, ◌>>=◌,
}
use lwmsg.Netwrap.{got, RecvWithin, Recv-cases}
use lwmsg.Htable.Content.{IsValid}
use lwmsg.ClHandle.RegList.{InList}
use lwmsg.Worker.{cl_state, accepted, cleanup_std_client}
use lwmsg.Worker.Safe.{IsSafe}
use lwmsg.Worker.Release.{cleanup-Released}
use lwmsg.Worker.Auth.{
  AuthState, AuthCall, AuthRecv, auth_failed, auth_blocks, auth_whole, auth_req_size, auth_recv,
  set_at, answer_auth, wt_handle_authentication,
}
use lwmsg.Worker.Settle.{Freed, Released-Freed}
use lwmsg.Worker.Admit.{TablesReady, Judged, answer_auth-Judged}

-- The loop that receives touches neither the worker nor the tables.
record Receives (s s' : AuthState) : Type 0 where
  same_worker : s'.worker ≡ s.worker
  same_names : s'.std_cl_table ≡ s.std_cl_table
  same_blocks : s'.std_ipblock_tbl ≡ s.std_ipblock_tbl

auth_recv-Receives :
    (fuel : ℕ) (call : AuthCall) (p : ℕ) (s : AuthState)
    → ((k n : ℕ) → RecvWithin n (call.recv_fn k n))
    → auth_req_size - length (s.recvbuf p) < fuel
    → Returns (λ (recved, s'). Receives s s') (auth_recv fuel call p s)
unfolding auth_recv
auth_recv-Receives zero call p s obeys enough = absurd (omega arith)
auth_recv-Receives (suc fuel) call p s obeys enough =
    let ask = auth_req_size - length (s.recvbuf p) in
    let called = record s { recv_calls = s.recv_calls + 1 } in
    let unchanged : (t : AuthState) → Receives called t → Receives s t = λ t r. record {
      same_worker = r.same_worker;
      same_names = r.same_names;
      same_blocks = r.same_blocks;
    } in
    elim (Recv-cases (call.recv_fn s.recv_calls ask)) [
      | inl e ↦ (
        (auth_failed, called),
        rw (e, auth_recv) refl,
        record { same_worker = refl; same_names = refl; same_blocks = refl },
      )
      | inr (inl e) ↦ (
        (auth_blocks, called),
        rw (e, auth_recv) refl,
        record { same_worker = refl; same_names = refl; same_blocks = refl },
      )
      | inr (inr (bytes, e)) ↦
          let within : RecvWithin ask (got bytes) =
            subst (RecvWithin ask) e (obeys s.recv_calls ask) in
          let stored = s.recvbuf p ++ bytes in
          let longer = length-append (s.recvbuf p) bytes in
          let s1 = record called { recvbuf = set_at s.recvbuf p stored } in
          let here : s1.recvbuf p ≡ stored = ground arith in
          let long : length (s1.recvbuf p) ≡ length (s.recvbuf p) + length bytes =
            ap length here ∙ longer in
          elim (Bool-cases (ltb (length stored) auth_req_size)) [
            | inl more ↦
                let ((recved, s'), run, r) =
                  auth_recv-Receives fuel call p s1 obeys
                    (omega (arith, within.0, within.1, long)) in
                (
                  (recved, s'),
                  rw (e, more, auth_recv) run,
                  record {
                    same_worker = r.same_worker;
                    same_names = r.same_names;
                    same_blocks = r.same_blocks;
                  },
                )
            | inr whole ↦ (
              (auth_whole, s1),
              rw (e, whole, auth_recv) refl,
              record { same_worker = refl; same_names = refl; same_blocks = refl },
            )
          ]
    ]

-- What a call of wt_handle_authentication makes of the client `p`: it still waits for the rest of the
-- request where recv_fn blocks; it is freed where recv_fn fails; and it is judged where the whole
-- request has come.
pub data Answered (call : AuthCall) (p : ℕ) (s s' : AuthState) : Type 0 where
  still_waits :
      auth_recv (auth_req_size + 1) call p s ≡ some (auth_blocks, s')
      → s'.worker ≡ s.worker
      → Answered call p s s'
  is_lost :
      (s1 : AuthState)
      → auth_recv (auth_req_size + 1) call p s ≡ some (auth_failed, s1)
      → Freed p s.worker s'.worker
      → Answered call p s s'
  is_judged :
      (s1 : AuthState)
      → auth_recv (auth_req_size + 1) call p s ≡ some (auth_whole, s1)
      → s1.worker ≡ s.worker
      → Judged call s1 p (s1.recvbuf p) s'
      → Answered call p s s'

pub wt_handle_authentication-Answered :
    (call : AuthCall) (s : AuthState) (p : ℕ)
    → IsSafe s.worker
    → InList p s.worker.preauth_list
    → cl_state s.worker p ≡ accepted
    → ((k n : ℕ) → RecvWithin n (call.recv_fn k n))
    → TablesReady s
    → Returns (Answered call p s) (wt_handle_authentication call s p)
unfolding wt_handle_authentication
wt_handle_authentication-Answered call s p safe m state obeys ready =
    let ((recved, s1), run, r) =
      auth_recv-Receives (auth_req_size + 1) call p s obeys (omega arith) in
    let (s', run', a) = ended recved s1 r run in (s', rw run run', a)
  where
    ended :
        (recved : AuthRecv) (s1 : AuthState)
        → Receives s s1
        → auth_recv (auth_req_size + 1) call p s ≡ some (recved, s1)
        → Returns (Answered call p s) (elim recved as (λ _. Option AuthState) [
          | auth_failed ↦ cleanup_std_client s1.worker p >>= (λ w. some (record s1 { worker = w }))
          | auth_blocks ↦ some s1
          | auth_whole ↦ answer_auth call s1 p (s1.recvbuf p)
        ])
    ended auth_failed s1 r run =
        let (w', run', out) =
          cleanup-Released s1.worker p (subst IsSafe (sym r.same_worker) safe)
            (subst (λ w. InList p w.preauth_list) (sym r.same_worker) m) in
        (
          record s1 { worker = w' },
          rw run' refl,
          is_lost s1 run (subst (λ w. Freed p w w') r.same_worker (Released-Freed out)),
        )
    ended auth_blocks s1 r run = (s1, refl, still_waits run r.same_worker)
    ended auth_whole s1 r run =
        let ready1 : TablesReady s1 = record {
          names = (ready.names.0, subst (IsValid ready.names.0) (sym r.same_names) ready.names.1);
          blocks =
              (ready.blocks.0, subst (IsValid ready.blocks.0) (sym r.same_blocks) ready.blocks.1);
        } in
        let (s', run', t) =
          answer_auth-Judged call s1 p (s1.recvbuf p) (subst IsSafe (sym r.same_worker) safe)
            (subst (λ w. InList p w.preauth_list) (sym r.same_worker) m)
            (subst (λ w. cl_state w p ≡ accepted) (sym r.same_worker) state) ready1 in
        (s', run', is_judged s1 run r.same_worker t)
