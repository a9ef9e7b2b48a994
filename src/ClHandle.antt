-- ===== src/ClHandle.antt =====
-- server/clhandle.c: the order of user names, the list of the clients that register, and the checks
-- of a recipient and of a request. A user name is the list of its bytes before the NUL.
pub mod NameOrder
pub mod RegList
mod Tests
use lwmsg.Base.{
  ℕ, zero, suc, ◌+◌, ◌^◌, min, Ordering, Bool, true, false, not, Option, none, some, List, [], ◌∷◌,
  ◌++◌, length, leb, ◌==◌, if◌then◌else◌, compare,
}
use lwmsg.Base.Memory.{write}
use lwmsg.Htable.{Htable, Node, Locks, htable_get_cond, node_put}
use lwmsg.Lwmp.{msg_type, req_type, mt_req}

-- The sign of strncmp, where the end of a list is its NUL.
unfoldable pub strncmp : ℕ → List ℕ → List ℕ → Ordering
strncmp zero a b = Ordering.eq
strncmp (suc n) [] [] = Ordering.eq
strncmp (suc n) [] (y ∷ b) = compare 0 y
strncmp (suc n) (x ∷ a) [] = compare x 0
strncmp (suc n) (x ∷ a) (y ∷ b) = elim (compare x y) [
  | Ordering.eq ↦ elim x [ zero ↦ Ordering.eq | suc m ↦ strncmp n a b ]
  | Ordering.lt ↦ Ordering.lt
  | Ordering.gt ↦ Ordering.gt
]

-- The sign of the result. The lengths are those of the lists.
unfoldable pub std_client_cmp : List ℕ → List ℕ → Ordering
unfolding strncmp
std_client_cmp a b = elim (strncmp (min (length a) (length b)) a b) [
  | Ordering.eq ↦ compare (length a) (length b)
  | Ordering.lt ↦ Ordering.lt
  | Ordering.gt ↦ Ordering.gt
]

-- `reg_client_list`: the addresses from the dummy node's `next` on.
abbrev pub RegClientList : Type 0
RegClientList = List ℕ

unfoldable pub list_create : RegClientList
list_create = []

unfoldable pub list_add : RegClientList → ℕ → RegClientList
list_add [] cl = cl ∷ []
list_add (next ∷ rest) cl = cl ∷ next ∷ rest

-- The walk along `curr`, and the unlinking where it meets `cl`.
abbrev pub remove_walk : RegClientList → ℕ → RegClientList
remove_walk [] cl = []
remove_walk (curr ∷ rest) cl =
    let later = curr ∷ remove_walk rest cl in if cl == curr then rest else later

-- `cl` is 0 where it is NULL.
unfoldable pub list_remove : RegClientList → ℕ → RegClientList
list_remove list cl = if cl == 0 then list else remove_walk list cl

abbrev pub disconnected : ℕ
disconnected = 3

unfoldable pub is_not_disconnected : ℕ → Bool
is_not_disconnected cl_state = not (cl_state == disconnected)

-- What node_copy_username returns: KEY_SKIP, BUF_TOOSMALL, or the number of bytes it copied.
pub data CopyResult : Type 0 where
  key_skip buf_toosmall : CopyResult
  copied : ℕ → CopyResult

-- `buf` is the buffer from its offset on, `buf_size` its size.
unfoldable pub node_copy_username : ℕ → List ℕ → List ℕ → ℕ → CopyResult × List ℕ
node_copy_username cl_state username buf buf_size =
    let uname_len = length username + 1 in
    if cl_state == disconnected
    then (key_skip, buf)
    else if leb uname_len buf_size
    then (copied uname_len, write buf 0 (username ++ 0 ∷ []))
    else (buf_toosmall, buf)

-- `state` is the `cl_state` of the client that a node stands in.
unfoldable pub validate_recipient : (Node → ℕ) → Htable → List ℕ → Locks → Bool × Htable
unfolding is_not_disconnected htable_get_cond
validate_recipient state h rcpt_uname locks =
    let (found, h') =
      htable_get_cond h (some rcpt_uname) (λ nd. is_not_disconnected (state nd)) locks in
    elim found [ none ↦ (false, h') | some nd ↦ (true, node_put h' nd) ]

abbrev pub req_user_list : ℕ
req_user_list = 0

unfoldable pub validate_request : List ℕ → Bool
validate_request pdu =
    if not (msg_type pdu == mt_req)
    then false
    else if not (req_type pdu == req_user_list)
    then false
    else true
