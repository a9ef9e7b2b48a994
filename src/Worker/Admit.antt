-- ===== src/Worker/Admit.antt =====
-- What wt_handle_authentication of server/worker.c leaves of the worker.
use lwmsg.Base.{
  ℕ, ◌≡◌, ◌≢◌, ◌⊎◌, inl, inr, refl, sym, ap, subst, ◌∙◌, arith, Bool, true, false, Bool-cases, none,
  some, List, ◌==◌, ==_iff, not, ◌&&◌, if◌then◌else◌, Returns, Option,
}
use lwmsg.TimerHeap.{cl_timerheap_remove}
use lwmsg.TimerHeap.Unlink.{remove-unlinked}
use lwmsg.Htable.{Htable, Node, Locks, bucket, bucket_index, find, node_get, htable_get, htable_add}
use lwmsg.Htable.Content.{IsValid}
use lwmsg.Htable.Grow.{add_returns}
use lwmsg.Htable.NodeList.{intrusive_list_remove}
use lwmsg.ClHandle.RegList.{InList}
use lwmsg.Worker.{
  Worker, cl_state, accepted, authenticated, unlist_client, auth_send_resp, cleanup_std_client,
}
use lwmsg.Worker.Safe.{IsSafe}
use lwmsg.Worker.Release.{cleanup-Released, remove-Without}
use lwmsg.Worker.Timeout.{responses-IsSafe}
use lwmsg.Worker.Auth.{
  AuthState, AuthCall, auth_check, auth_resp_ok, auth_resp_duplicate, new_block, count_in,
  count_failure, after_add, set_at, turn_away, admit, answer_auth, auth_username, normalize_string,
  validate_auth,
}
use lwmsg.Worker.Settle.{outside_state, outside_free, Leaves, delisted, Freed, Released-Freed}

-- The tables that the threads share are in order, each for the keys that its comparison is for.
pub record TablesReady (s : AuthState) : Type 1 where
  pub names : (IsKey : List ℕ → Type 0) × IsValid IsKey s.std_cl_table
  pub blocks : (IsKey : List ℕ → Type 0) × IsValid IsKey s.std_ipblock_tbl

node_get-IsValid :
    {IsKey : List ℕ → Type 0} (h : Htable) (nd : Node)
    → IsValid IsKey h
    → IsValid IsKey (node_get h nd)
unfolding node_get
node_get-IsValid h nd v = record {
  laws = v.laws;
  wired = v.wired;
  sized = v.sized;
  power = v.power;
  factor = v.factor;
  counted = v.counted;
}

-- A look into a table leaves it in order.
get-IsValid :
    {IsKey : List ℕ → Type 0} (h : Htable) (key : List ℕ) (ref_inc : Bool) (locks : Locks)
    → IsValid IsKey h
    → IsValid IsKey (htable_get h key ref_inc locks).1
unfolding htable_get
get-IsValid {IsKey} h key ref_inc locks v =
    looked (locks.g_read && locks.stripe)
      (find h.cmpfn key (bucket h (bucket_index h.bucket_count key))) ref_inc
  where
    looked :
        (b : Bool) (target : Option Node) (inc : Bool)
        → IsValid IsKey
            (if not b then (none, h) else elim target as (λ _. Option Node × Htable) [
              | none ↦ (none, h)
              | some nd ↦ (some nd, if inc then node_get h nd else h)
            ]).1
    looked false target inc = v
    looked true none inc = v
    looked true (some nd) false = v
    looked true (some nd) true = node_get-IsValid h nd v

-- The response does not bear on it.
resent :
    (w : Worker) (p code : ℕ) (w' : Worker) → Freed p (auth_send_resp w p code) w' → Freed p w w'
resent w p code w' t = record {
  leaves = record {
    safe = t.leaves.safe;
    members = t.leaves.members;
    others_live = t.leaves.others_live;
    unheld = t.leaves.unheld;
  };
  freed = t.freed;
}

turn_away-Freed :
    (s : AuthState) (p code : ℕ)
    → IsSafe s.worker
    → InList p s.worker.preauth_list
    → Returns (λ s'. Freed p s.worker s'.worker) (turn_away s p code)
unfolding turn_away
turn_away-Freed s p code safe m =
    let sent = auth_send_resp s.worker p code in
    let (w', run, r) = cleanup-Released sent p (responses-IsSafe s.worker sent.responses safe) m in
    (record s { worker = w' }, rw run refl, resent s.worker p code w' (Released-Freed r))

-- The block records do not bear on the worker.
count_in-worker :
    (call : AuthCall) (s : AuthState) (found : Option Node) (tbl : Htable)
    → Returns
        (λ _. Unit {0})
        (htable_add tbl
          (record { address = call.new_record; key = call.peer_key })
          call.ip_add_locks
          call.ip_alloc)
    → Returns (λ s'. s'.worker ≡ s.worker) (count_in call s found tbl)
unfolding count_in
count_in-worker call s (some nd) tbl mem = (_, refl, refl)
count_in-worker call s none tbl ((added, tbl'), run, _) =
    (new_block call s added tbl', rw run refl, refl)

count_failure-worker :
    (call : AuthCall) (s : AuthState)
    → TablesReady s
    → Returns (λ s'. s'.worker ≡ s.worker) (count_failure call s)
unfolding count_failure
count_failure-worker call s ready =
    let (found, tbl) = htable_get s.std_ipblock_tbl call.peer_key true call.ip_get_locks in
    count_in-worker call s found tbl (
      add_returns tbl
        (get-IsValid s.std_ipblock_tbl call.peer_key true call.ip_get_locks ready.blocks.1)
        (record { address = call.new_record; key = call.peer_key }) call.ip_add_locks call.ip_alloc)

cleanup-accepted :
    (w : Worker) (p : ℕ)
    → cl_state w p ≡ accepted
    → cl_timerheap_remove w.clth p ≡ some w.clth
    → cleanup_std_client w p ≡ some (unlist_client w p)
unfolding cleanup_std_client
cleanup-accepted w p state run = rw (state, run, cleanup_std_client) refl

-- What the answer of htable_add makes of the client: it is AUTHENTICATED, or freed.
abbrev Decided : Bool → ℕ → AuthState → AuthState → Type 0
Decided res p s s' =
    ((res ≡ true)
      × (s'.worker.live p ≡ true)
      × (cl_state s'.worker p ≡ authenticated)
      × (s'.username ≡ s.username)
      × (s'.std_cl_table ≡ s.std_cl_table))
    ⊎ ((res ≡ false) × (s'.worker.live p ≡ false))

-- A client that is out of the list and the heap, by the answer of htable_add.
after_add-Decided :
    (s : AuthState) (p : ℕ) (res : Bool) (w : Worker)
    → Leaves w p s.worker
    → p ≢ 0
    → s.worker.live p ≡ true
    → cl_state s.worker p ≡ accepted
    → (s.worker.clth.cl p).timerheap_index ≡ none
    → Returns (λ s'. Leaves w p s'.worker × Decided res p s s') (after_add s p res)
unfolding after_add turn_away
after_add-Decided s p true w left real live state index =
    let sent = auth_send_resp s.worker p auth_resp_ok in
    let safe = responses-IsSafe s.worker sent.responses left.safe in
    let gone : ¬ InList p sent.preauth_list = λ m. ((left.members p).0 m).1 refl in
    (
      _,
      refl,
      (
        record {
          safe = outside_state sent p safe gone authenticated;
          members = left.members;
          others_live = left.others_live;
          unheld = left.unheld;
        },
        inl (refl, live, ground arith, refl, refl),
      ),
    )
after_add-Decided s p false w left real live state index =
    let sent = auth_send_resp s.worker p auth_resp_duplicate in
    let safe = responses-IsSafe s.worker sent.responses left.safe in
    let gone : ¬ InList p sent.preauth_list = λ m. ((left.members p).0 m).1 refl in
    let freed = outside_free sent p safe gone real in
    let run : cleanup_std_client sent p ≡ some (unlist_client sent p) =
      cleanup-accepted sent p state (remove-unlinked sent.clth p index) in
    (
      record s { worker = unlist_client sent p },
      rw run refl,
      (
        record {
          safe = freed.safe;
          members = λ q. (
            λ mq. (left.members q).0 ((freed.members q).0 mq).0,
            λ x. (freed.members q).1 ((left.members q).1 x, x.1),
          );
          others_live = λ q ne. freed.others_live q ne ∙ left.others_live q ne;
          unheld = freed.unheld;
        },
        inr (refl, ground arith),
      ),
    )

-- The node of a client's name, and how the table of the clients takes it.
abbrev pub name_of : AuthCall → List ℕ → List ℕ
name_of call auth_req = normalize_string (auth_username (validate_auth call auth_req).1)

abbrev pub adds_name : AuthCall → AuthState → ℕ → List ℕ → Option (Bool × Htable)
adds_name call s p auth_req =
    htable_add s.std_cl_table (record { address = p; key = name_of call auth_req }) call.add_locks
      call.alloc

-- What becomes of the client `p` whose request has come. It is AUTHENTICATED with the name of its
-- request, which the table of the clients has taken, only where the response to the request is
-- AUTH_RESP_OK; it is freed only where the response is another or the table does not take the name.
pub record Judged (call : AuthCall) (s : AuthState) (p : ℕ) (auth_req : List ℕ) (s' : AuthState)
    : Type 0 where
  pub leaves : Leaves s.worker p s'.worker
  pub fate :
      ((auth_check call s auth_req ≡ auth_resp_ok)
        × (s'.worker.live p ≡ true)
        × (cl_state s'.worker p ≡ authenticated)
        × (s'.username p ≡ name_of call auth_req)
        × (adds_name call s p auth_req ≡ some (true, s'.std_cl_table)))
      ⊎ ((s'.worker.live p ≡ false)
          × ((auth_check call s auth_req ≢ auth_resp_ok)
              ⊎ ((tbl : Htable) × (adds_name call s p auth_req ≡ some (false, tbl)))))

admit-Judged :
    (call : AuthCall) (s : AuthState) (p : ℕ) (auth_req : List ℕ)
    → IsSafe s.worker
    → InList p s.worker.preauth_list
    → cl_state s.worker p ≡ accepted
    → TablesReady s
    → auth_check call s auth_req ≡ auth_resp_ok
    → Returns (Judged call s p auth_req) (admit call s p (validate_auth call auth_req).1)
unfolding admit turn_away
admit-Judged call s p auth_req safe m state ready granted =
    let w = s.worker in
    let (h', run, out) = remove-Without w p safe m in
    let left = delisted w p h' safe m out in
    let w1 = record w { clth = h'; preauth_list = intrusive_list_remove w.preauth_list p } in
    let name = name_of call auth_req in
    let ((res, tbl), added, _) =
      add_returns s.std_cl_table ready.names.1 (record { address = p; key = name }) call.add_locks
        call.alloc in
    let s1 = record s { worker = w1; std_cl_table = tbl; username = set_at s.username p name } in
    let named : s1.username p ≡ name = ground arith in
    let (s', run', (leaves, decided)) =
      after_add-Decided s1 p res w left (safe.listed p m).0 (safe.listed p m).1
        (out.same_state p ∙ state) out.unlinked in
    (
      s',
      rw (run, added) run',
      record {
        leaves = leaves;
        fate = elim decided [
          | inl (took, live, st, same_name, same_tbl) ↦ inl (
            granted,
            live,
            st,
            ap (λ (f : ℕ → List ℕ). f p) same_name ∙ named,
            added ∙ ap (λ r. some (r, tbl)) took ∙ ap (λ t. some (true, t)) (sym same_tbl),
          )
          | inr (failed, dead) ↦ inr (dead, inr (tbl, added ∙ ap (λ r. some (r, tbl)) failed))
        ];
      },
    )

pub answer_auth-Judged :
    (call : AuthCall) (s : AuthState) (p : ℕ) (auth_req : List ℕ)
    → IsSafe s.worker
    → InList p s.worker.preauth_list
    → cl_state s.worker p ≡ accepted
    → TablesReady s
    → Returns (Judged call s p auth_req) (answer_auth call s p auth_req)
unfolding answer_auth
answer_auth-Judged call s p auth_req safe m state ready =
    elim (Bool-cases (auth_check call s auth_req == auth_resp_ok)) [
      | inl granted ↦
          let (s', run, t) =
            admit-Judged call s p auth_req safe m state ready ((==_iff _ _).0 granted) in
          (s', rw granted run, t)
      | inr denied ↦
          let (s1, counted, same) = count_failure-worker call s ready in
          let (s', run, t) =
            turn_away-Freed s1 p (auth_check call s auth_req) (subst IsSafe (sym same) safe)
              (subst (λ w. InList p w.preauth_list) (sym same) m) in
          (
            s',
            rw denied (rw counted run),
            record {
              leaves = subst (λ w. Leaves w p s'.worker) same t.leaves;
              fate = inr (t.freed, inl (λ e. absurd (ground (arith, denied, e))));
            },
          )
    ]
