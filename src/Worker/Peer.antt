-- ===== src/Worker/Peer.antt =====
-- wt_handle_new_connections of server/worker.c: the checks of a peer's address, and the loop over
-- accept.
use lwmsg.Base.{
  ℕ, Bool, true, false, ◌&&◌, not, Option, none, some, List, [], ◌∷◌, if◌then◌else◌, ◌>>=◌,
}
use lwmsg.TimerHeap.{Timespec}
use lwmsg.Htable.{Htable, Node, Locks, htable_get, htable_remove, node_put}
use lwmsg.IpBlock.{rs_not_blocked, rs_blocked, rs_expired, chk_std_block}
use lwmsg.Worker.{AcceptResult, new_connection}
use lwmsg.Worker.Auth.{AuthState, set_at}

-- A peer that accept gives: the bytes of its address, what the calls for it meet, the address
-- of its client, and the time.
pub record Peer : Type 0 where
  pub sin_addr : List ℕ
  pub use_ip_whitelist : Bool
  pub whitelist_locks : Locks
  pub block_locks : Locks
  pub remove_locks : Locks
  pub stdc : ℕ
  pub ares : AcceptResult
  pub now : Timespec

abbrev set_blocks : AuthState → Htable → AuthState
set_blocks s tbl = record s { std_ipblock_tbl = tbl }

-- Whether the block record `nd` of a peer lets it in.
abbrev pub check_record : Peer → AuthState → Htable → Node → Bool × AuthState
check_record peer s tbl nd = elim (chk_std_block (s.std_ipb_recs nd.address) peer.now) [
  | rs_blocked ↦ (false, set_blocks s (node_put tbl nd))
  | rs_expired ↦ (true, set_blocks s (node_put (htable_remove tbl nd.key peer.remove_locks) nd))
  | rs_not_blocked ↦ (true, set_blocks s (node_put tbl nd))
]

-- What htable_get finds of it.
abbrev pub check_found : Peer → AuthState → Option Node × Htable → Bool × AuthState
check_found peer s (none, tbl) = (true, set_blocks s tbl)
check_found peer s (some nd, tbl) = check_record peer s tbl nd

unfoldable pub check_block : Peer → AuthState → Bool × AuthState
check_block peer s =
    check_found peer s (htable_get s.std_ipblock_tbl peer.sin_addr true peer.block_locks)

abbrev pub is_listed : Peer → Htable → Bool
is_listed peer ip_whitelist_tbl =
    elim (htable_get ip_whitelist_tbl peer.sin_addr false peer.whitelist_locks).0 [
      | none ↦ false
      | some nd ↦ true
    ]

unfoldable pub check_peer : Peer → Htable → AuthState → Bool × AuthState
unfolding check_block
check_peer peer ip_whitelist_tbl s =
    if peer.use_ip_whitelist && not (is_listed peer ip_whitelist_tbl)
    then (false, s)
    else check_block peer s

-- The client of a peer that is let in. It has received nothing, and has no name.
abbrev let_in : Peer → AuthState → Option AuthState
let_in peer s = new_connection s.worker peer.stdc peer.ares peer.now >>= (λ w. some (record s {
  worker = w;
  recvbuf = set_at s.recvbuf peer.stdc [];
  username = set_at s.username peer.stdc [];
}))

-- The loop ends where accept has no more peers.
unfoldable pub wt_handle_new_connections : Htable → AuthState → List Peer → Option AuthState
unfolding check_peer
wt_handle_new_connections ip_whitelist_tbl s [] = some s
wt_handle_new_connections ip_whitelist_tbl s (peer ∷ peers) =
    let (may, s') = check_peer peer ip_whitelist_tbl s in
    (if may then let_in peer s' else some s')
    >>= (λ t. wt_handle_new_connections ip_whitelist_tbl t peers)
