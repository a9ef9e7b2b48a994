-- ===== src/Worker/Tests.antt =====
-- A worker with two clients that are to authenticate: 7 has finished its handshake, 8 has not.
use mathlib.Core.Path.{fun_ext}
use lwmsg.Base.{
  ℕ, zero, suc, ◌+◌, ◌<◌, ◌≡◌, ◌≢◌, ◌⊎◌, ◌↔◌, ◌>>=◌, inl, inr, refl, true, false, ◌||◌, none, some,
  [], ◌∷◌, ◌==◌, if◌then◌else◌, replicate, arith, Returns, subst,
}
use lwmsg.Netwrap.{Recv, recv_error, got}
use lwmsg.TimerHeap.{Timespec, slot}
use lwmsg.TimerHeap.Slots.{Holds}
use lwmsg.ClHandle.{std_client_cmp}
use lwmsg.ClHandle.RegList.{InList}
use lwmsg.Htable.{node_put, Htable, Node, Locks, alloc_ok, htable_get, add_locked}
use lwmsg.IpBlock.{StdIpbRec, chk_std_block}
use lwmsg.Worker.{
  Worker, accept_done, init, accepting, accepted, cleanup_std_client, new_connection,
  handle_clth_timeout, wt_handle_shutdown,
}
use lwmsg.Worker.Safe.{IsSafe}
use lwmsg.Worker.Release.{Released, cleanup-Released}
use lwmsg.Worker.Timeout.{Expired, Answers}
use lwmsg.Worker.Expiry.{handle_clth_timeout-Expired}
use lwmsg.Worker.Connect.{Connected, HasRoom, new_connection-Connected}
use lwmsg.Worker.Auth.{AuthState, AuthCall, count_failure, node_arr_sweep}
use lwmsg.Worker.Peer.{Peer, check_peer}
use lwmsg.Worker.Failures.{RefusedAfter, count_failure-check_peer}
use lwmsg.Worker.Reach.{
  Step, connects, shuts_down, sweeps, Reach, here, next, shutdown-IsSafe, Starts, def_clth_size,
  Reach-IsSafe,
}

abbrev at_second : ℕ → Timespec
at_second t = record { tv_sec = t; tv_nsec = 0 }

abbrev busy : Worker
busy = record {
  clth = record {
    clients = 7 ∷ 0 ∷ [];
    num_clients = 1;
    num_slots = 2;
    cl = λ p.
        if p == 7
        then record { timerheap_index = some 0; auth_deadline = at_second 10; cl_state = accepted }
        else record { timerheap_index = none; auth_deadline = at_second 0; cl_state = accepting };
  };
  preauth_list = 8 ∷ 7 ∷ [];
  dconn_clients = [];
  live = λ p. p == 7 || p == 8;
  responses = [];
}

busy-held : (p : ℕ) → Holds busy.clth p → p ≡ 7
busy-held p (zero, lt, e) = omega (arith, e)
busy-held p (suc i, lt, e) = absurd (omega (arith, lt))

busy-indexed : (i : ℕ) → i < 1 → (busy.clth.cl (slot busy.clth i)).timerheap_index ≡ some i
busy-indexed zero lt = refl
busy-indexed (suc i) lt = absurd (omega arith)

busy-nonnull : (i : ℕ) → i < 1 → slot busy.clth i ≢ 0
busy-nonnull zero lt = omega arith
busy-nonnull (suc i) lt = absurd (omega arith)

busy-member :
    (p : ℕ)
    → InList p busy.preauth_list
    → Holds busy.clth p ⊎ ((busy.clth.cl p).timerheap_index ≡ none)
busy-member p (inl e) = inr (ground (arith, e))
busy-member p (inr (inl e)) = inl (0, omega arith, omega arith)
busy-member p (inr (inr m)) = elim m [ ]

busy-IsSafe : IsSafe busy
busy-IsSafe = record {
  valid = record {
    wired = record {
      slots = refl;
      power = (1, omega arith, refl);
      small = omega arith;
      few = omega arith;
      fits = omega arith;
      indexed = busy-indexed;
      nonnull = busy-nonnull;
      normal = λ p. ground arith;
    };
    ordered = λ c a b. absurd (omega (arith, a, b));
  };
  distinct = ((λ m. ground (arith, m)), ((λ m. m), tt));
  held = λ p h. ground (arith, busy-held p h);
  listed = λ p m. ground (arith, m);
  indexed = busy-member;
}

cleanup-Released_example : Returns (Released busy 7) (cleanup_std_client busy 7)
cleanup-Released_example = cleanup-Released busy 7 busy-IsSafe (inr (inl refl))

-- The deadline of client 7 has come by the first reading of the clock.
handle_clth_timeout-Expired_example :
    Returns
      (λ (r, w').
        Expired (λ i. at_second (i + 11)) busy w' × Answers (λ i. at_second (i + 11)) w' r)
      (handle_clth_timeout 2 (λ i. at_second (i + 11)) 0 busy)
handle_clth_timeout-Expired_example =
    handle_clth_timeout-Expired 2 (λ i. at_second (i + 11)) 0 busy busy-IsSafe (omega arith)

room_for_5 : HasRoom busy 5
room_for_5 = (refl, omega arith, omega arith)

new_connection-Connected_example :
    Returns
      (Connected busy 5 (at_second 6) accept_done)
      (new_connection busy 5 accept_done (at_second 6))
new_connection-Connected_example =
    new_connection-Connected busy 5 accept_done (at_second 6) busy-IsSafe room_for_5 (omega arith)

-- Tables of one bucket, and a client that sends zeros for its request.
abbrev no_nodes : Htable
no_nodes = record {
  buckets = [] ∷ [];
  cmpfn = std_client_cmp;
  bucket_count = 1;
  element_count = 0;
  resize_thres_elem_count = 1;
  lock_count = 1;
  buckets_per_lock_pow2 = 0;
  threshold_load_factor = 100;
  htable_pow2_resize_factor = 1;
  ref_cnt = λ a. 1;
  freed = [];
}

abbrev open_locks : Locks
open_locks = record { try_resize = true; g_read = true; stripe = true }

abbrev no_block : StdIpbRec
no_block = record {
  std_ip_addr = 0;
  std_timestamp = at_second 0;
  failed_auths = 0;
  std_is_manual = false;
}

abbrev with_worker : Worker → AuthState
with_worker w = record {
  worker = w;
  std_cl_table = no_nodes;
  std_ipblock_tbl = no_nodes;
  std_ipb_recs = λ a. no_block;
  recvbuf = λ p. [];
  username = λ p. [];
  recv_calls = 0;
}

zeros : ℕ → ℕ → Recv
zeros k zero = recv_error
zeros k (suc n) = got (replicate (suc n) 0)

abbrev call : AuthCall
call = record {
  recv_fn = zeros;
  use_auth = true;
  password_matches = λ request. true;
  get_locks = open_locks;
  add_locks = open_locks;
  alloc = alloc_ok;
  ip_get_locks = open_locks;
  ip_add_locks = open_locks;
  ip_alloc = alloc_ok;
  peer_name = 1;
  peer_key = 1 ∷ 0 ∷ 0 ∷ 0 ∷ [];
  new_record = 20;
  now = at_second 6;
}

-- The fifth failure from an address, and its next connection.
abbrev fourth : Node
fourth = record { address = 30; key = call.peer_key }

abbrev four_failures : AuthState
four_failures = record (with_worker busy) {
  std_ipblock_tbl = (add_locked no_nodes fourth open_locks).1;
  std_ipb_recs = λ a. record no_block { failed_auths = 4 };
}

abbrev peer : Peer
peer = record {
  sin_addr = call.peer_key;
  use_ip_whitelist = false;
  whitelist_locks = open_locks;
  block_locks = open_locks;
  remove_locks = open_locks;
  stdc = 40;
  ares = accept_done;
  now = at_second 10;
}

fourth_found :
    (htable_get four_failures.std_ipblock_tbl call.peer_key true call.ip_get_locks).0 ≡ some fourth
unfolding htable_get add_locked std_client_cmp
fourth_found = refl

fifth_refused :
    (count_failure call four_failures >>= (λ s. some (check_peer peer no_nodes s).0)) ≡ some false
unfolding htable_get add_locked count_failure check_peer std_client_cmp node_put chk_std_block
fifth_refused = refl

count_failure-check_peer_example :
    Returns
      (λ s'.
        ((check_peer peer no_nodes s').0 ≡ false)
        ↔ RefusedAfter peer no_nodes (record no_block { failed_auths = 4 }))
      (count_failure call four_failures)
count_failure-check_peer_example =
    count_failure-check_peer call peer no_nodes four_failures fourth fourth_found refl refl

-- A worker at its start, and its first connection.
abbrev idle : Worker
idle = record {
  clth = record {
    clients = replicate def_clth_size 0;
    num_clients = 0;
    num_slots = def_clth_size;
    cl = λ p. record { timerheap_index = none; auth_deadline = at_second 0; cl_state = init };
  };
  preauth_list = [];
  dconn_clients = [];
  live = λ p. false;
  responses = [];
}

idle-Starts : Starts idle
idle-Starts = record {
  no_clients = refl;
  slots = refl;
  clients = refl;
  empty_list = refl;
  normal = λ p. omega arith;
}

idle-room : HasRoom idle 5
idle-room = (refl, omega arith, omega arith)

first_connection :
    Returns
      (Connected idle 5 (at_second 6) accept_done)
      (new_connection idle 5 accept_done (at_second 6))
first_connection =
    new_connection-Connected idle 5 accept_done (at_second 6)
      (Reach-IsSafe {s = with_worker idle} here idle-Starts) idle-room (omega arith)

connected : Reach (with_worker idle) (with_worker first_connection.0)
connected = next here (
    subst
      (λ buf. Step (with_worker idle) (record (with_worker first_connection.0) { recvbuf = buf }))
      (fun_ext (λ q. ground arith))
      (connects (with_worker idle) 5 accept_done (at_second 6) first_connection.0 idle-room
        (omega arith) first_connection.1))

-- The worker shuts down, and sweeps.
shut : Returns IsSafe (wt_handle_shutdown first_connection.0 first_connection.0.preauth_list)
shut =
    let safe = Reach-IsSafe connected idle-Starts in
    shutdown-IsSafe first_connection.0 first_connection.0.preauth_list safe safe.distinct (λ q m. m)

swept : Reach (with_worker idle) (record (with_worker shut.0) {
  worker = record (shut.0) { dconn_clients = [] };
  std_cl_table = node_arr_sweep no_nodes (λ p. []) (λ p. open_locks) shut.0.dconn_clients;
})
swept =
    next (next connected (shuts_down (with_worker first_connection.0) shut.0 shut.1))
      (sweeps (with_worker shut.0) (λ p. open_locks))

Reach-IsSafe_example : IsSafe (record (shut.0) { dconn_clients = [] })
Reach-IsSafe_example = Reach-IsSafe swept idle-Starts
