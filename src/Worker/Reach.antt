-- ===== src/Worker/Reach.antt =====
-- The loop of worker_thrd_routine of server/worker.c: the events of its clients, the sweep of those
-- that are disconnected and the shutdown, in any order.
use mathlib.Core.Option.{some-injective}
use lwmsg.Base.{
  ℕ, suc, ◌+◌, ◌^◌, ◌<◌, ◌≡◌, inl, inr, sym, ap, subst, ◌∙◌, arith, length, length-replicate, some,
  refl, List, [], ◌∷◌, ◌++◌, Returns, Option, replicate,
}
use lwmsg.Netwrap.{RecvWithin}
use lwmsg.TimerHeap.{Timespec}
use lwmsg.TimerHeap.Slots.{Holds}
use lwmsg.ClHandle.RegList.{InList, IsDistinct}
use lwmsg.Worker.{
  Worker, AcceptResult, accept_done, accept_error, accept_in_progress, cl_state, accepting,
  accepted, authenticated, st_disconnected, set_state, free_client, cleanup_std_client,
  wt_handle_shutdown, new_connection, wt_handle_accepting, handle_clth_timeout,
}
use lwmsg.Worker.Safe.{IsSafe}
use lwmsg.Worker.Release.{cleanup-Released}
use lwmsg.Worker.Expiry.{handle_clth_timeout-Expired}
use lwmsg.Worker.Connect.{HasRoom, new_connection-Connected}
use lwmsg.Worker.Handshake.{Handshaken, wt_handle_accepting-Handshaken}
use lwmsg.Worker.Settle.{outside_state, outside_gone}
use lwmsg.Htable.{Htable, Locks}
use lwmsg.IpBlock.{StdIpbRec}
use lwmsg.Worker.Auth.{AuthState, AuthCall, set_at, wt_handle_authentication, node_arr_sweep}
use lwmsg.Worker.Admit.{TablesReady}
use lwmsg.Worker.Answer.{
  Answered, still_waits, is_lost, is_judged, wt_handle_authentication-Answered,
}

abbrev set_worker : AuthState → Worker → AuthState
set_worker s w = record s { worker = w }

-- An event and what the worker makes of it.
pub data Step : AuthState → AuthState → Type 1 where
  connects :
      (s : AuthState) (p : ℕ) (ares : AcceptResult) (now : Timespec) (w : Worker)
      → HasRoom s.worker p
      → now.tv_nsec < 10 ^ 9
      → new_connection s.worker p ares now ≡ some w
      → Step s (record s { worker = w; recvbuf = set_at s.recvbuf p [] })
  shakes_hands :
      (s : AuthState) (p : ℕ) (ares : AcceptResult) (now : Timespec) (w : Worker)
      → InList p s.worker.preauth_list
      → cl_state s.worker p ≡ accepting
      → suc s.worker.clth.num_clients < 2 ^ 31
      → now.tv_nsec < 10 ^ 9
      → wt_handle_accepting s.worker p ares now ≡ some w
      → Step s (set_worker s w)
  authenticates :
      (s : AuthState) (p : ℕ) (call : AuthCall) (s' : AuthState)
      → InList p s.worker.preauth_list
      → cl_state s.worker p ≡ accepted
      → ((k n : ℕ) → RecvWithin n (call.recv_fn k n))
      → TablesReady s
      → wt_handle_authentication call s p ≡ some s'
      → Step s s'
  hangs_up :
      (s : AuthState) (p : ℕ) (w : Worker)
      → InList p s.worker.preauth_list
      → cleanup_std_client s.worker p ≡ some w
      → Step s (set_worker s w)
  waits :
      (s : AuthState) (clock : ℕ → Timespec) (wait : Option ℕ) (w : Worker)
      → handle_clth_timeout (s.worker.clth.num_clients + 1) clock 0 s.worker ≡ some (wait, w)
      → Step s (set_worker s w)
  -- An AUTHENTICATED client goes, for whatever reason.
  drops :
      (s : AuthState) (p : ℕ) (w : Worker)
      → cl_state s.worker p ≡ authenticated
      → cleanup_std_client s.worker p ≡ some w
      → Step s (set_worker s w)
  sweeps :
      (s : AuthState) (locks : ℕ → Locks)
      → Step s (record s {
        worker = record (s.worker) { dconn_clients = [] };
        std_cl_table = node_arr_sweep s.std_cl_table s.username locks s.worker.dconn_clients;
      })
  -- The last reference to a disconnected client is put, by whichever thread.
  frees :
      (s : AuthState) (p : ℕ)
      → cl_state s.worker p ≡ st_disconnected
      → Step s (set_worker s (free_client s.worker p))
  shuts_down :
      (s : AuthState) (w : Worker)
      → wt_handle_shutdown s.worker s.worker.preauth_list ≡ some w
      → Step s (set_worker s w)
  -- The other threads change what is shared.
  others :
      (s : AuthState) (names blocks : Htable) (recs : ℕ → StdIpbRec)
      → Step s (record s { std_cl_table = names; std_ipblock_tbl = blocks; std_ipb_recs = recs })

pub data Reach (s : AuthState) : AuthState → Type 1 where
  here : Reach s s
  next : {t u : AuthState} → Reach s t → Step t u → Reach s u

-- What a run returns is what it was shown to return.
same_result {ℓ κ} :
    {A : Type ℓ} {P : A → Type κ} {a : A} {r : Option A} → Returns P r → r ≡ some a → P a
same_result {P} {a} (b, run, p) e = subst P (some-injective b a (sym run ∙ e)) p

Handshaken-IsSafe :
    (w : Worker) (p : ℕ) (ares : AcceptResult) (w' : Worker)
    → IsSafe w
    → Handshaken w p ares w'
    → IsSafe w'
Handshaken-IsSafe w p accept_done w' safe h = h.0
Handshaken-IsSafe w p accept_in_progress w' safe h = subst IsSafe (sym h) safe
Handshaken-IsSafe w p accept_error w' safe h = h.safe

Answered-IsSafe :
    (call : AuthCall) (p : ℕ) (s s' : AuthState)
    → IsSafe s.worker
    → Answered call p s s'
    → IsSafe s'.worker
Answered-IsSafe call p s s' safe (still_waits run same) = subst IsSafe (sym same) safe
Answered-IsSafe call p s s' safe (is_lost s1 run lost) = lost.leaves.safe
Answered-IsSafe call p s s' safe (is_judged s1 run same judged) = judged.leaves.safe

-- Neither of these states is one of a client that is to authenticate.
not_listed : (w : Worker) (p : ℕ) → IsSafe w → accepted < cl_state w p → ¬ InList p w.preauth_list
not_listed w p safe above m = elim (safe.listed p m).2 [
  | inl e ↦ omega (arith, e, above)
  | inr e ↦ omega (arith, e, above)
]

-- The clients that wait for the sweep do not matter.
dconn_clients-IsSafe :
    (w : Worker) (dconn : List ℕ) → IsSafe w → IsSafe (record w { dconn_clients = dconn })
dconn_clients-IsSafe w dconn safe = record {
  valid = safe.valid;
  distinct = safe.distinct;
  held = safe.held;
  listed = safe.listed;
  indexed = safe.indexed;
}

drop-IsSafe :
    (w : Worker) (p : ℕ)
    → IsSafe w
    → cl_state w p ≡ authenticated
    → Returns IsSafe (cleanup_std_client w p)
unfolding cleanup_std_client
drop-IsSafe w p safe state =
    let out = not_listed w p safe (omega (arith, state)) in
    (
      record (set_state w p st_disconnected) { dconn_clients = w.dconn_clients ++ p ∷ [] },
      rw (state, cleanup_std_client) refl,
      dconn_clients-IsSafe (set_state w p st_disconnected) (w.dconn_clients ++ p ∷ [])
          (outside_state w p safe out st_disconnected),
    )

pub shutdown-IsSafe :
    (w : Worker) (list : List ℕ)
    → IsSafe w
    → IsDistinct list
    → ((q : ℕ) → InList q list → InList q w.preauth_list)
    → Returns IsSafe (wt_handle_shutdown w list)
unfolding wt_handle_shutdown
shutdown-IsSafe w [] safe distinct within = (w, refl, safe)
shutdown-IsSafe w (p ∷ list) safe (fresh, distinct) within =
    let (w1, run, out) = cleanup-Released w p safe (within p (inl refl)) in
    let (w', run', safe') =
      shutdown-IsSafe w1 list out.safe distinct (λ q m.
        (out.members q).1 (within q (inr m), λ e. fresh (subst (λ c. InList c list) e m))) in
    (w', rw run run', safe')

Step-IsSafe : {s t : AuthState} → Step s t → IsSafe s.worker → IsSafe t.worker
Step-IsSafe (connects s p ares now w room normal run) safe =
    (same_result (new_connection-Connected s.worker p ares now safe room normal) run).safe
Step-IsSafe (shakes_hands s p ares now w m state few normal run) safe =
    Handshaken-IsSafe s.worker p ares w safe
      (same_result (wt_handle_accepting-Handshaken s.worker p ares now safe m state few normal) run)
Step-IsSafe (authenticates s p call s' m state obeys ready run) safe =
    Answered-IsSafe call p s s' safe
      (same_result (wt_handle_authentication-Answered call s p safe m state obeys ready) run)
Step-IsSafe (hangs_up s p w m run) safe =
    (same_result (cleanup-Released s.worker p safe m) run).safe
Step-IsSafe (waits s clock wait w run) safe =
    (same_result (handle_clth_timeout-Expired _ clock 0 s.worker safe (omega arith)) run).0.safe
Step-IsSafe (drops s p w state run) safe = same_result (drop-IsSafe s.worker p safe state) run
Step-IsSafe (sweeps s locks) safe = dconn_clients-IsSafe s.worker [] safe
Step-IsSafe (frees s p state) safe =
    outside_gone s.worker p safe (not_listed s.worker p safe (omega (arith, state)))
Step-IsSafe (shuts_down s w run) safe =
    same_result (shutdown-IsSafe s.worker s.worker.preauth_list safe safe.distinct (λ q m. m)) run
Step-IsSafe (others s names blocks recs) safe = safe

-- What worker_thrd_routine begins with.
abbrev pub def_clth_size : ℕ
def_clth_size = 256

pub record Starts (w : Worker) : Type 0 where
  pub no_clients : w.clth.num_clients ≡ 0
  pub slots : w.clth.num_slots ≡ def_clth_size
  pub clients : w.clth.clients ≡ replicate def_clth_size 0
  pub empty_list : w.preauth_list ≡ []
  pub normal : (p : ℕ) → (w.clth.cl p).auth_deadline.tv_nsec < 10 ^ 9

Starts-IsSafe : (w : Worker) → Starts w → IsSafe w
Starts-IsSafe w st =
    let none_held : (p : ℕ) → ¬ Holds w.clth p = λ p (i, lt, e). omega (arith, st.no_clients, lt) in
    let unlisted : (p : ℕ) → ¬ InList p w.preauth_list = λ p m. subst (InList p) st.empty_list m in
    record {
      valid = record {
        wired = record {
          slots = st.slots ∙ sym (ap length st.clients ∙ length-replicate {A = ℕ} def_clth_size 0);
          power = (8, omega arith, st.slots);
          small = omega (arith, st.slots);
          few = omega (arith, st.no_clients);
          fits = omega (arith, st.no_clients);
          indexed = λ i lt. absurd (omega (arith, st.no_clients, lt));
          nonnull = λ i lt. absurd (omega (arith, st.no_clients, lt));
          normal = st.normal;
        };
        ordered = λ c a b. absurd (omega (arith, st.no_clients, b));
      };
      distinct = subst IsDistinct (sym st.empty_list) tt;
      held = λ p h. absurd (none_held p h);
      listed = λ p m. absurd (unlisted p m);
      indexed = λ p m. absurd (unlisted p m);
    }

Reach-keeps : {s t : AuthState} → Reach s t → IsSafe s.worker → IsSafe t.worker
Reach-keeps here safe = safe
Reach-keeps (next r step) safe = Step-IsSafe step (Reach-keeps r safe)

-- From its start on, whatever the order in which the clients of a worker connect, shake hands,
-- authenticate, time out, hang up or, AUTHENTICATED, are dropped, in which those that are dropped are
-- swept and freed, other threads change the tables and the worker shuts down, where each clock has
-- less than a second of nanoseconds, the heap counts less than 2 ^ 31 clients, a new client stands
-- at a free address, recv_fn gives no more than it is asked for, and the tables are valid when a
-- client authenticates: the timer heap is valid, a client that it holds is in the list of those to
-- authenticate and ACCEPTED, and each client of that list is allocated, ACCEPTING or ACCEPTED, and
-- in the heap or without an index.
pub Reach-IsSafe : {s t : AuthState} → Reach s t → Starts s.worker → IsSafe t.worker
Reach-IsSafe {s} r st = Reach-keeps r (Starts-IsSafe s.worker st)
