-- ===== src/Worker/Failures.antt =====
-- Failed authentications and the next connection from the same address, in server/worker.c.
use lwmsg.Base.{
  ℕ, ◌≡◌, ◌↔◌, ◌⊎◌, ◌%◌, ◌+◌, ◌^◌, ◌<◌, ◌≤◌, inl, inr, refl, sym, ap, subst, arith, Bool, true,
  false, ◌&&◌, not, Bool-cases, Option, some, List, if◌then◌else◌, Returns,
}
use lwmsg.TimerHeap.{Timespec}
use lwmsg.Htable.{Htable, Node, Locks, bucket, bucket_index, find, htable_get, node_get, node_put}
use lwmsg.IpBlock.{StdIpbRec, rs_blocked, chk_std_block}
use lwmsg.IpBlock.Life.{chk_std_block-blocked_iff}
use lwmsg.Worker.Auth.{set_at, AuthState, AuthCall, count_in, count_failure}
use lwmsg.Worker.Peer.{Peer, check_record, check_found, check_block, is_listed, check_peer}

abbrev walk : Htable → List ℕ → Option Node
walk h key = find h.cmpfn key (bucket h (bucket_index h.bucket_count key))

found-walk :
    (h : Htable) (key : List ℕ) (locks : Locks) (nd : Node)
    → (htable_get h key true locks).0 ≡ some nd
    → walk h key ≡ some nd
unfolding htable_get
found-walk h key locks nd found = ground (arith, found)

walk-get :
    (h : Htable) (key : List ℕ) (locks : Locks) (nd : Node)
    → walk h key ≡ some nd
    → (locks.g_read && locks.stripe) ≡ true
    → htable_get h key true locks ≡ (some nd, node_get h nd)
unfolding htable_get
walk-get h key locks nd e locked = rw (locked, e) refl

found-get :
    (h : Htable) (key : List ℕ) (locks : Locks) (nd : Node)
    → (htable_get h key true locks).0 ≡ some nd
    → htable_get h key true locks ≡ (some nd, node_get h nd)
unfolding htable_get
found-get h key locks nd found = elim (Bool-cases (locks.g_read && locks.stripe)) [
  | inl e ↦ walk-get h key locks nd (found-walk h key locks nd found) e
  | inr e ↦ absurd (ground (arith, e, found))
]

-- A node that was found, and put back, is found again.
found_again :
    (h : Htable) (key : List ℕ) (locks : Locks) (nd : Node)
    → walk h key ≡ some nd
    → (locks.g_read && locks.stripe) ≡ true
    → htable_get (node_put (node_get h nd) nd) key true locks
      ≡ (some nd, node_get (node_put (node_get h nd) nd) nd)
unfolding node_put node_get
found_again h key locks nd e locked = walk-get (node_put (node_get h nd) nd) key locks nd e locked

check_block-found :
    (peer : Peer) (s : AuthState) (nd : Node) (tbl : Htable)
    → htable_get s.std_ipblock_tbl peer.sin_addr true peer.block_locks ≡ (some nd, tbl)
    → check_block peer s ≡ check_record peer s tbl nd
unfolding check_block
check_block-found peer s nd tbl got = ap (check_found peer s) got

-- The record that is found decides.
record-refuses_iff :
    (peer : Peer) (s : AuthState) (tbl : Htable) (nd : Node)
    → ((check_record peer s tbl nd).0 ≡ false)
      ↔ (chk_std_block (s.std_ipb_recs nd.address) peer.now ≡ rs_blocked)
record-refuses_iff peer s tbl nd = ground arith

-- The whitelist comes first.
either_check :
    (used listed : Bool) (s : AuthState) (next : Bool × AuthState)
    → ((if used && not listed then (false, s) else next).0 ≡ false)
      ↔ (((used ≡ true) × (listed ≡ false)) ⊎ (next.0 ≡ false))
either_check used listed s next = ground arith

check_peer-refuses_iff :
    (peer : Peer) (ip_whitelist_tbl : Htable) (s : AuthState)
    → ((check_peer peer ip_whitelist_tbl s).0 ≡ false) ↔ (
        ((peer.use_ip_whitelist ≡ true) × (is_listed peer ip_whitelist_tbl ≡ false))
        ⊎ ((check_block peer s).0 ≡ false))
unfolding check_peer
check_peer-refuses_iff peer ip_whitelist_tbl s =
    either_check peer.use_ip_whitelist (is_listed peer ip_whitelist_tbl) s (check_block peer s)

set_at-same : {A : Type 0} (f : ℕ → A) (p : ℕ) (a : A) → set_at f p a p ≡ a
set_at-same f p a = ground arith

abbrev pub counted : StdIpbRec → StdIpbRec
counted rec = record rec { failed_auths = (rec.failed_auths + 1) % 2 ^ 8 }

-- The state after a failure that is counted in the record `nd`.
abbrev count_again : AuthCall → AuthState → Node → AuthState
count_again call s nd = record s {
  std_ipblock_tbl = node_put (node_get s.std_ipblock_tbl nd) nd;
  std_ipb_recs = set_at s.std_ipb_recs nd.address (counted (s.std_ipb_recs nd.address));
}

-- When a block record refuses its address.
abbrev pub IsRefused : StdIpbRec → Timespec → Type 0
IsRefused rec now =
    (rec.std_is_manual ≡ true)
    ⊎ ((now.tv_sec < rec.std_timestamp.tv_sec + 3600) × (5 ≤ rec.failed_auths))

-- When a peer is refused after one more failure is counted in `rec`.
abbrev pub RefusedAfter : Peer → Htable → StdIpbRec → Type 0
RefusedAfter peer ip_whitelist_tbl rec =
    ((peer.use_ip_whitelist ≡ true) × (is_listed peer ip_whitelist_tbl ≡ false))
    ⊎ IsRefused (counted rec) peer.now

next_check :
    (call : AuthCall) (peer : Peer) (s : AuthState) (nd : Node)
    → (htable_get s.std_ipblock_tbl call.peer_key true call.ip_get_locks).0 ≡ some nd
    → peer.sin_addr ≡ call.peer_key
    → (peer.block_locks.g_read && peer.block_locks.stripe) ≡ true
    → check_block peer (count_again call s nd)
      ≡ check_record peer
          (count_again call s nd)
          (node_get (count_again call s nd).std_ipblock_tbl nd)
          nd
next_check call peer s nd found same locked =
    let put = (count_again call s nd).std_ipblock_tbl in
    let walked = found-walk s.std_ipblock_tbl call.peer_key call.ip_get_locks nd found in
    check_block-found peer (count_again call s nd) nd (node_get put nd) (
      subst (λ k. htable_get put k true peer.block_locks ≡ (some nd, node_get put nd)) (sym same)
        (found_again s.std_ipblock_tbl call.peer_key peer.block_locks nd walked locked))

-- A failed authentication from an address that has a block record counts, and the next peer of that
-- address, for which the locks are granted, is refused exactly when it is not in a whitelist that is
-- in use, or the record was made by hand, or the time of the record is not over and there are five
-- failures, this one included, in the 8 bits of the counter.
pub count_failure-check_peer :
    (call : AuthCall) (peer : Peer) (ip_whitelist_tbl : Htable) (s : AuthState) (nd : Node)
    → (htable_get s.std_ipblock_tbl call.peer_key true call.ip_get_locks).0 ≡ some nd
    → peer.sin_addr ≡ call.peer_key
    → (peer.block_locks.g_read && peer.block_locks.stripe) ≡ true
    → Returns
        (λ s'.
          ((check_peer peer ip_whitelist_tbl s').0 ≡ false)
          ↔ RefusedAfter peer ip_whitelist_tbl (s.std_ipb_recs nd.address))
        (count_failure call s)
unfolding count_failure count_in check_peer
count_failure-check_peer call peer ip_whitelist_tbl s nd found same locked =
    let s' = count_again call s nd in
    let tbl = node_get s'.std_ipblock_tbl nd in
    let rec = counted (s.std_ipb_recs nd.address) in
    let at = set_at-same s.std_ipb_recs nd.address rec in
    let next = next_check call peer s nd found same locked in
    let first = check_peer-refuses_iff peer ip_whitelist_tbl s' in
    let second =
      subst
        (λ c. (c.0 ≡ false) ↔ (chk_std_block (s'.std_ipb_recs nd.address) peer.now ≡ rs_blocked))
        (sym next) (record-refuses_iff peer s' tbl nd) in
    let third =
      subst (λ r. (chk_std_block r peer.now ≡ rs_blocked) ↔ IsRefused rec peer.now) (sym at)
        (chk_std_block-blocked_iff rec peer.now) in
    (
      s',
      ap (λ r. count_in call s r.0 r.1)
          (found-get s.std_ipblock_tbl call.peer_key call.ip_get_locks nd found),
      (
        (λ e. elim (first.0 e) [ inl w ↦ inl w | inr b ↦ inr (third.0 (second.0 b)) ]),
        (λ r. first.1 (elim r [ inl w ↦ inl w | inr b ↦ inr (second.1 (third.1 b)) ])),
      ),
    )
