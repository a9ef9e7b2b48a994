-- ===== src/TimerHeap.antt =====
-- server/cltimerheap.h and server/cltimerheap.c: the clients that have yet to authenticate, in a
-- binary heap by deadline. A client pointer is a number, 0 is NULL, and `cl` is the memory that
-- the pointers reach. What clock_gettime returns is an argument. A loop takes fuel; `none` is a
-- spent fuel.
pub mod Slots
pub mod Order
pub mod Up
pub mod Down
pub mod Unlink
pub mod Link
mod Tests
use lwmsg.Base.{
  ℕ, zero, suc, ◌+◌, ◌-◌, ◌*◌, ◌/◌, ◌%◌, ◌^◌, Bool, true, false, not, ◌&&◌, ◌||◌, Option, none,
  some, List, ◌++◌, ltb, leb, ◌==◌, if◌then◌else◌, get_or, set, replicate, ◌>>=◌,
}

-- `struct timespec`.
pub record Timespec : Type 0 where
  pub tv_sec : ℕ
  pub tv_nsec : ℕ

-- The fields of `client` that the heap reads or writes; `none` is INVAL_TH_IND (-1).
pub record Client : Type 0 where
  pub timerheap_index : Option ℕ
  pub auth_deadline : Timespec
  pub cl_state : ℕ

-- `cl_timerheap`, with the clients behind its pointers.
pub record TimerHeap : Type 0 where
  pub clients : List ℕ
  pub num_clients : ℕ
  pub num_slots : ℕ
  pub cl : ℕ → Client

abbrev pub update {ℓ} : {A : Type ℓ} → (ℕ → A) → ℕ → A → ℕ → A
update f p v q = if q == p then v else f q

-- `heap->clients[i]`.
abbrev pub slot : TimerHeap → ℕ → ℕ
slot h i = get_or h.clients i 0

abbrev pub deadline : TimerHeap → ℕ → Timespec
deadline h i = (h.cl (slot h i)).auth_deadline

-- The macro MIN(heap->clients, a, b).
unfoldable pub min_index : TimerHeap → ℕ → ℕ → ℕ
min_index h a b =
    let s = deadline h a in
    let t = deadline h b in
    if ltb s.tv_sec t.tv_sec
    then a
    else if not (s.tv_sec == t.tv_sec)
    then b
    else if ltb s.tv_nsec t.tv_nsec
    then a
    else b

-- The conversion of an `int64_t` index to `uint32_t`.
abbrev pub to_u32 : Option ℕ → ℕ
to_u32 none = 2 ^ 32 - 1
to_u32 (some i) = i % 2 ^ 32

abbrev pub set_index : (ℕ → Client) → ℕ → Option ℕ → ℕ → Client
set_index cl p i = update cl p (record (cl p) { timerheap_index = i })

-- swap(&heap->clients[i], &heap->clients[j]): each slot keeps the index of its client.
unfoldable pub swap : TimerHeap → ℕ → ℕ → TimerHeap
swap h i j =
    let a = slot h i in
    let b = slot h j in
    let a_idx = to_u32 (h.cl a).timerheap_index in
    let b_idx = to_u32 (h.cl b).timerheap_index in
    record h {
      clients = set (set h.clients i b) j a;
      cl = set_index (set_index h.cl b (some a_idx)) a (some b_idx);
    }

-- cl_timerheap_resize; `none` is its `false`, and new_num_slots is a uint32_t.
unfoldable pub resize : TimerHeap → Option TimerHeap
resize h =
    let new_num_slots = h.num_slots * 2 % 2 ^ 32 in
    if ltb new_num_slots h.num_slots
    then none
    else some (record h {
      clients = h.clients ++ replicate (new_num_slots - h.num_slots) 0;
      num_slots = new_num_slots;
    })

unfoldable pub heapify_up : ℕ → TimerHeap → ℕ → Option TimerHeap
heapify_up zero h index = none
heapify_up (suc fuel) h index =
    let parent = (index - 1) / 2 in
    let rest = heapify_up fuel (swap h index parent) parent in
    if ltb 0 index && min_index h index parent == index then rest else some h

-- The child to sink below, where there is one: `new_index` of the loop, before its last test.
unfoldable pub new_index : TimerHeap → ℕ → Option ℕ
unfolding min_index
new_index h index =
    let max_index = (h.num_clients - 1) % 2 ^ 32 in
    let lchild_index = (2 * index + 1) % 2 ^ 32 in
    let rchild_index = (2 * index + 2) % 2 ^ 32 in
    let lchild = if leb lchild_index max_index then slot h lchild_index else 0 in
    let rchild = if leb rchild_index max_index then slot h rchild_index else 0 in
    if lchild == 0 && rchild == 0
    then none
    else if rchild == 0
    then some lchild_index
    else some (min_index h lchild_index rchild_index)

unfoldable pub heapify_down : ℕ → TimerHeap → ℕ → Option TimerHeap
heapify_down zero h index = none
heapify_down (suc fuel) h index = elim (new_index h index) [
  | none ↦ some h
  | some child ↦
      let rest = heapify_down fuel (swap h index child) child in
      if min_index h index child == child then rest else some h
]

-- cl_timerheap_add, at the time `now`.
add_at : TimerHeap → ℕ → ℕ → Timespec → Option (Bool × TimerHeap)
add_at h p deadline_time_len now =
    let index = h.num_clients % 2 ^ 32 in
    let due = record now { tv_sec = now.tv_sec + deadline_time_len } in
    let client = record (h.cl p) { auth_deadline = due; timerheap_index = some index } in
    let h' = record h {
      clients = set h.clients index p;
      num_clients = h.num_clients + 1;
      cl = update h.cl p client;
    } in
    do r ← heapify_up (index + 1) h' index; some (true, r)

unfoldable pub cl_timerheap_add : TimerHeap → ℕ → ℕ → Timespec → Option (Bool × TimerHeap)
unfolding add_at
cl_timerheap_add h p deadline_time_len now =
    if h.num_clients == h.num_slots
    then elim (resize h) [ none ↦ some (false, h) | some h' ↦ add_at h' p deadline_time_len now ]
    else add_at h p deadline_time_len now

unfoldable pub cl_timerheap_peek : TimerHeap → ℕ
cl_timerheap_peek h = if h.num_clients == 0 then 0 else slot h 0

-- The result of cl_timerheap_compute_root_timediff: CLTH_EMPTY, CLTH_TIMEOUT, CLTH_NOT_APPLICABLE,
-- or the milliseconds to wait.
pub data TimeDiff : Type 0 where
  clth_empty clth_timeout clth_not_applicable : TimeDiff
  wait : ℕ → TimeDiff

unfoldable pub cl_timerheap_compute_root_timediff : TimerHeap → ℕ → Timespec → TimeDiff
unfolding cl_timerheap_peek
cl_timerheap_compute_root_timediff h target_state now =
    let p = cl_timerheap_peek h in
    let root = h.cl p in
    let due = root.auth_deadline.tv_sec in
    if p == 0
    then clth_empty
    else if not (root.cl_state == target_state)
    then clth_not_applicable
    else if leb due now.tv_sec
    then clth_timeout
    else wait ((due - now.tv_sec) * 1000)

unfoldable pub cl_timerheap_pop : TimerHeap → Option (ℕ × TimerHeap)
cl_timerheap_pop h =
    let popped = slot h 0 in
    let fewer = record h { num_clients = h.num_clients - 1 } in
    let max_index = fewer.num_clients % 2 ^ 32 in
    let only = record fewer { cl = set_index h.cl popped none } in
    let swapped = swap fewer 0 max_index in
    let rest = record swapped { cl = set_index swapped.cl popped none } in
    let sunk = heapify_down (h.num_clients + 1) rest 0 in
    if h.num_clients == 0
    then some (0, h)
    else if fewer.num_clients == 0
    then some (popped, only)
    else do r ← sunk; some (popped, r)

-- The part of cl_timerheap_remove after its early returns: `p` stands at `index`, before the last.
remove_at : TimerHeap → ℕ → ℕ → Option TimerHeap
remove_at h p index =
    let last = h.num_clients - 1 in
    let swapped = swap (record h { num_clients = last }) index last in
    let h' = record swapped { cl = set_index swapped.cl p none } in
    let parent_index = (index - 1) / 2 in
    let fuel = h.num_clients + 1 in
    if index == 0
    then heapify_down fuel h' index
    else if min_index h' index parent_index == index
    then heapify_up fuel h' index
    else heapify_down fuel h' index

unfoldable pub cl_timerheap_remove : TimerHeap → ℕ → Option TimerHeap
unfolding remove_at
cl_timerheap_remove h p = if h.num_clients == 0 then some h else elim (h.cl p).timerheap_index [
  | none ↦ some h
  | some i ↦
      let index = to_u32 (some i) in
      let last = h.num_clients - 1 in
      let only = record h { num_clients = last; cl = set_index h.cl p none } in
      if last == 0 || index == last then some only else remove_at h p index
]
