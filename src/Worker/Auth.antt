-- ===== src/Worker/Auth.antt =====
-- wt_handle_authentication of server/worker.c, validate_auth of server/dbops.c, and normalize_string
-- of common/util.c, and node_arr_sweep of server/htable.c.
use lwmsg.Base.{
  ℕ, zero, suc, ◌+◌, ◌-◌, ◌%◌, ◌^◌, Bool, true, false, ◌&&◌, not, Option, none, some, List, [], ◌∷◌,
  ◌++◌, ltb, leb, ◌==◌, if◌then◌else◌, length, set, map, ◌>>=◌,
}
use lwmsg.Base.Memory.{slice, write, be_decode}
use lwmsg.Netwrap.{Recv, recv_error, recv_block, got}
use lwmsg.TimerHeap.{Timespec, cl_timerheap_remove}
use lwmsg.Htable.{Htable, Node, Locks, ResizeAlloc, htable_get, htable_add, htable_remove, node_put}
use lwmsg.Htable.NodeList.{intrusive_list_remove}
use lwmsg.IpBlock.{StdIpbRec, std_ipb_rec_create}
use lwmsg.Lwmp.{uname_size}
use lwmsg.Session.Inbound.{c_string}
use lwmsg.Worker.{Worker, set_state, authenticated, auth_send_resp, cleanup_std_client}

-- `auth_req_group`: a type, a name and a password.
abbrev pub auth_req_size : ℕ
auth_req_size = 56

abbrev pub pwd_size : ℕ
pwd_size = 20

abbrev pub req_authentication : ℕ
req_authentication = 0xF68C104A

abbrev pub auth_resp_ok : ℕ
auth_resp_ok = 0x51CEF28D

abbrev pub auth_resp_inval_req : ℕ
auth_resp_inval_req = 0x23A80DBF

abbrev pub auth_resp_inval_param : ℕ
auth_resp_inval_param = 0x128CE6DA

abbrev pub auth_resp_duplicate : ℕ
auth_resp_duplicate = 0x1F7CE628

unfoldable pub request_type : List ℕ → ℕ
request_type auth_req = be_decode (slice auth_req 0 4)

-- The name up to its NUL, as strnlen has it.
unfoldable pub auth_username : List ℕ → List ℕ
auth_username auth_req = c_string (slice auth_req 4 uname_size)

abbrev pub tolower : ℕ → ℕ
tolower c = if leb 65 c && leb c 90 then c + 32 else c

unfoldable pub normalize_string : List ℕ → List ℕ
normalize_string str = map tolower str

-- The worker, with the tables that its threads share and what its clients have received and are
-- called. `std_ipb_recs` is the memory of the block records.
pub record AuthState : Type 0 where
  pub worker : Worker
  pub std_cl_table : Htable
  pub std_ipblock_tbl : Htable
  pub std_ipb_recs : ℕ → StdIpbRec
  pub recvbuf : ℕ → List ℕ
  pub username : ℕ → List ℕ
  pub recv_calls : ℕ

-- What a call meets: the answers of recv_fn, whether the server is to check passwords and what the
-- database and the comparison with the stored hash say to a request, the locks and the memory of each call
-- of the tables, the client's address on the network, and the address and the time for a new record.
pub record AuthCall : Type 0 where
  pub recv_fn : ℕ → ℕ → Recv
  pub use_auth : Bool
  pub password_matches : List ℕ → Bool
  pub get_locks : Locks
  pub add_locks : Locks
  pub alloc : ResizeAlloc
  pub ip_get_locks : Locks
  pub ip_add_locks : Locks
  pub ip_alloc : ResizeAlloc
  pub peer_name : ℕ
  pub peer_key : List ℕ
  pub new_record : ℕ
  pub now : Timespec

abbrev pub set_at {ℓ} : {A : Type ℓ} → (ℕ → A) → ℕ → A → ℕ → A
set_at f p a q = if q == p then a else f q

-- How the loop over recv_fn ends.
pub data AuthRecv : Type 0 where
  auth_failed auth_blocks auth_whole : AuthRecv

-- The do-while loop that receives the request.
unfoldable pub auth_recv : ℕ → AuthCall → ℕ → AuthState → Option (AuthRecv × AuthState)
auth_recv zero call p s = none
auth_recv (suc fuel) call p s =
    let called = record s { recv_calls = s.recv_calls + 1 } in
    elim (call.recv_fn s.recv_calls (auth_req_size - length (s.recvbuf p))) [
      | recv_error ↦ some (auth_failed, called)
      | recv_block ↦ some (auth_blocks, called)
      | got bytes ↦
          let stored = s.recvbuf p ++ bytes in
          let s' = record called { recvbuf = set_at s.recvbuf p stored } in
          let again = auth_recv fuel call p s' in
          if ltb (length stored) auth_req_size then again else some (auth_whole, s')
    ]

-- The request as validate_auth leaves it: the name and the password are closed, and the name is in
-- lower case.
unfoldable pub close_request : List ℕ → List ℕ
unfolding normalize_string auth_username
close_request req =
    let closed = set (set req (4 + uname_size - 1) 0) (4 + uname_size + pwd_size - 1) 0 in
    write closed 4 (normalize_string (auth_username closed))

-- Its answer, and the request behind it.
unfoldable pub validate_auth : AuthCall → List ℕ → Bool × List ℕ
unfolding close_request
validate_auth call req =
    if call.use_auth
    then (call.password_matches (close_request req), close_request req)
    else (true, req)

-- The response to a request, before the name is added to the table.
unfoldable pub auth_check : AuthCall → AuthState → List ℕ → ℕ
unfolding validate_auth
auth_check call s auth_req =
    if not (request_type auth_req == req_authentication)
    then auth_resp_inval_req
    else elim (htable_get s.std_cl_table (auth_username auth_req) false call.get_locks).0 [
      | some nd ↦ auth_resp_duplicate
      | none ↦ if (validate_auth call auth_req).0 then auth_resp_ok else auth_resp_inval_param
    ]

-- The new record, which is freed if the table does not take it.
abbrev pub new_block : AuthCall → AuthState → Bool → Htable → AuthState
new_block call s added tbl = record s {
  std_ipblock_tbl = if added then tbl else record tbl { freed = call.new_record ∷ tbl.freed };
  std_ipb_recs =
      set_at s.std_ipb_recs call.new_record (std_ipb_rec_create call.peer_name false call.now);
}

-- A failure is counted in the block record of the client's address, or in a new one.
unfoldable pub count_in : AuthCall → AuthState → Option Node → Htable → Option AuthState
count_in call s (some nd) tbl =
    let rec = s.std_ipb_recs nd.address in
    some (record s {
      std_ipblock_tbl = node_put tbl nd;
      std_ipb_recs =
          set_at s.std_ipb_recs nd.address
            (record rec { failed_auths = (rec.failed_auths + 1) % 2 ^ 8 });
    })
count_in call s none tbl =
    htable_add tbl (record { address = call.new_record; key = call.peer_key }) call.ip_add_locks
      call.ip_alloc
    >>= (λ (added, tbl'). some (new_block call s added tbl'))

unfoldable pub count_failure : AuthCall → AuthState → Option AuthState
unfolding count_in
count_failure call s =
    let (found, tbl) = htable_get s.std_ipblock_tbl call.peer_key true call.ip_get_locks in
    count_in call s found tbl

-- auth_send_resp and cleanup_std_client.
unfoldable pub turn_away : AuthState → ℕ → ℕ → Option AuthState
turn_away s p resp_code =
    cleanup_std_client (auth_send_resp s.worker p resp_code) p
    >>= (λ w. some (record s { worker = w }))

-- What follows htable_add, by its answer.
unfoldable pub after_add : AuthState → ℕ → Bool → Option AuthState
unfolding turn_away
after_add s p true = some (record s {
  worker = set_state (auth_send_resp s.worker p auth_resp_ok) p authenticated;
  recvbuf = set_at s.recvbuf p [];
})
after_add s p false = turn_away s p auth_resp_duplicate

-- The client leaves the heap and the list, and its name goes into the table.
unfoldable pub admit : AuthCall → AuthState → ℕ → List ℕ → Option AuthState
unfolding after_add normalize_string
admit call s p auth_req =
    let name = normalize_string (auth_username auth_req) in
    cl_timerheap_remove s.worker.clth p >>= (λ h.
      htable_add s.std_cl_table (record { address = p; key = name }) call.add_locks call.alloc
      >>= (λ (res, tbl).
          after_add
            (record s {
              worker = record (s.worker) {
                clth = h;
                preauth_list = intrusive_list_remove s.worker.preauth_list p;
              };
              std_cl_table = tbl;
              username = set_at s.username p name;
            })
            p res))

-- The part behind the loop.
unfoldable pub answer_auth : AuthCall → AuthState → ℕ → List ℕ → Option AuthState
unfolding auth_check count_failure turn_away admit validate_auth
answer_auth call s p auth_req =
    let resp_code = auth_check call s auth_req in
    if not (resp_code == auth_resp_ok)
    then count_failure call s >>= (λ s'. turn_away s' p resp_code)
    else admit call s p (validate_auth call auth_req).1

unfoldable pub wt_handle_authentication : AuthCall → AuthState → ℕ → Option AuthState
unfolding answer_auth
wt_handle_authentication call s p = auth_recv (auth_req_size + 1) call p s >>= (λ (recved, s').
    elim recved [
      | auth_failed ↦ cleanup_std_client s'.worker p >>= (λ w. some (record s' { worker = w }))
      | auth_blocks ↦ some s'
      | auth_whole ↦ answer_auth call s' p (s'.recvbuf p)
    ])

-- The names of the disconnected clients leave the table.
unfoldable pub node_arr_sweep : Htable → (ℕ → List ℕ) → (ℕ → Locks) → List ℕ → Htable
node_arr_sweep cltable keys locks [] = cltable
node_arr_sweep cltable keys locks (p ∷ nodes) =
    node_arr_sweep (htable_remove cltable (keys p) (locks p)) keys locks nodes
