-- ===== src/Worker.antt =====
-- server/worker.c: a worker thread. This file has the clients that have yet to authenticate, and
-- the calls that make, accept and release them. A client is known by its address, which stands for
-- its node, too. `clth` has the fields of `client` that the timer heap knows, for every client.
pub mod Safe
pub mod Release
pub mod Timeout
pub mod Expiry
pub mod Connect
pub mod Handshake
pub mod Auth
pub mod Admit
pub mod Settle
pub mod Answer
pub mod Peer
pub mod Failures
pub mod Reach
mod Tests
use lwmsg.Base.{
  ℕ, zero, suc, ◌+◌, Bool, true, false, Option, none, some, List, [], ◌∷◌, ◌++◌, ◌==◌,
  if◌then◌else◌, ◌>>=◌,
}
use lwmsg.TimerHeap.{
  TimerHeap, Timespec, Client, update, cl_timerheap_add, cl_timerheap_remove, cl_timerheap_pop,
  cl_timerheap_compute_root_timediff, TimeDiff, clth_empty, clth_timeout, clth_not_applicable, wait,
}
use lwmsg.Htable.NodeList.{intrusive_list_add, intrusive_list_remove}

-- `enum client_state`, as far as a worker uses it.
abbrev pub init : ℕ
init = 0

abbrev pub accepting : ℕ
accepting = 1

abbrev pub accepted : ℕ
accepted = 2

abbrev pub st_disconnected : ℕ
st_disconnected = 3

abbrev pub authenticated : ℕ
authenticated = 5

-- `stdcl_containers` without the table of the clients, and the memory that the clients stand in:
-- `live` says which are allocated and not freed. `responses` are the codes that auth_send_resp was
-- called with, the latest first.
pub record Worker : Type 0 where
  pub clth : TimerHeap
  pub preauth_list : List ℕ
  pub dconn_clients : List ℕ
  pub live : ℕ → Bool
  pub responses : List (ℕ × ℕ)

abbrev pub cl_state : Worker → ℕ → ℕ
cl_state w p = (w.clth.cl p).cl_state

-- `__atomic_store_n(&stdc->cl.cl_state, …)`.
abbrev pub set_state : Worker → ℕ → ℕ → Worker
set_state w p s =
    let h = w.clth in
    record w { clth = record h { cl = update h.cl p (record (h.cl p) { cl_state = s }) } }

abbrev pub set_live : (ℕ → Bool) → ℕ → Bool → ℕ → Bool
set_live live p b q = if q == p then b else live q

-- The case INIT of cleanup_std_client.
abbrev pub free_client : Worker → ℕ → Worker
free_client w p = record w { live = set_live w.live p false }

-- The case ACCEPTING, which goes on to INIT.
abbrev pub unlist_client : Worker → ℕ → Worker
unlist_client w p =
    free_client (record w { preauth_list = intrusive_list_remove w.preauth_list p }) p

-- `none` is a spent fuel of the heap.
unfoldable pub cleanup_std_client : Worker → ℕ → Option Worker
cleanup_std_client w p =
    let state = cl_state w p in
    if state == authenticated
    then some (record (set_state w p st_disconnected) { dconn_clients = w.dconn_clients ++ p ∷ [] })
    else if state == accepted
    then cl_timerheap_remove w.clth p >>= (λ h. some (unlist_client (record w { clth = h }) p))
    else if state == accepting
    then some (unlist_client w p)
    else if state == init
    then some (free_client w p)
    else some w

-- create_std_client of server/clhandle.c, at the address that xmalloc gives.
unfoldable pub create_std_client : Worker → ℕ → Worker
create_std_client w p =
    let h = w.clth in
    let fresh : Client = record {
      timerheap_index = none;
      auth_deadline = record { tv_sec = 0; tv_nsec = 0 };
      cl_state = init;
    } in
    record w { clth = record h { cl = update h.cl p fresh }; live = set_live w.live p true }

-- What accept_fn answers.
pub data AcceptResult : Type 0 where
  accept_done accept_in_progress accept_error : AcceptResult

abbrev pub clth_auth_maxperm_time : ℕ
clth_auth_maxperm_time = 4

-- cl_timerheap_add, whose answer the callers drop.
abbrev pub track_deadline : Worker → ℕ → Timespec → Option Worker
track_deadline w p now =
    cl_timerheap_add w.clth p clth_auth_maxperm_time now >>= (λ r. some (record w { clth = r.1 }))

-- The end of a round of wt_handle_new_connections, for a peer that may connect.
unfoldable pub new_connection : Worker → ℕ → AcceptResult → Timespec → Option Worker
unfolding create_std_client cleanup_std_client
new_connection w p ares now =
    let made = create_std_client w p in
    let list = λ (v : Worker). record v { preauth_list = intrusive_list_add v.preauth_list p } in
    elim ares [
      | accept_done ↦ track_deadline (set_state made p accepted) p now >>= (λ v. some (list v))
      | accept_error ↦ cleanup_std_client made p
      | accept_in_progress ↦ some (list (set_state made p accepting))
    ]

unfoldable pub wt_handle_accepting : Worker → ℕ → AcceptResult → Timespec → Option Worker
unfolding cleanup_std_client
wt_handle_accepting w p ares now = elim ares [
  | accept_error ↦ cleanup_std_client w p
  | accept_done ↦ track_deadline w p now >>= (λ v. some (set_state v p accepted))
  | accept_in_progress ↦ some w
]

abbrev pub auth_resp_timeout : ℕ
auth_resp_timeout = 0x7F0CDE45

abbrev pub auth_send_resp : Worker → ℕ → ℕ → Worker
auth_send_resp w p resp_type = record w { responses = (p, resp_type) ∷ w.responses }

-- The loop of handle_clth_timeout: `i` counts the rounds, and `clock i` is the time that round reads.
-- The result is the milliseconds to wait, or `none` for -1.
unfoldable pub handle_clth_timeout : ℕ → (ℕ → Timespec) → ℕ → Worker → Option (Option ℕ × Worker)
unfolding cleanup_std_client
handle_clth_timeout zero clock i w = none
handle_clth_timeout (suc fuel) clock i w =
    elim (cl_timerheap_compute_root_timediff w.clth accepted (clock i)) [
      | clth_empty ↦ some (none, w)
      | wait ms ↦ some (some ms, w)
      | clth_not_applicable ↦
          cl_timerheap_pop w.clth
          >>= (λ r. handle_clth_timeout fuel clock (i + 1) (record w { clth = r.1 }))
      | clth_timeout ↦ cl_timerheap_pop w.clth >>= (λ r.
          cleanup_std_client (auth_send_resp (record w { clth = r.1 }) r.0 auth_resp_timeout) r.0
          >>= handle_clth_timeout fuel clock (i + 1))
    ]

-- The preauth clients of wt_handle_shutdown, from `list` on.
unfoldable pub wt_handle_shutdown : Worker → List ℕ → Option Worker
unfolding cleanup_std_client
wt_handle_shutdown w [] = some w
wt_handle_shutdown w (p ∷ list) = cleanup_std_client w p >>= (λ v. wt_handle_shutdown v list)
