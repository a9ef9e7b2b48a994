-- ===== src/Htable.antt =====
-- server/htable.c and server/htable.h: the striped hash table. A bucket is the list of its nodes in
-- the order of their `next` pointers, and a key is the list of its `key_size` bytes. A node is known
-- by its address; the reference counts are the memory behind the addresses. What the functions of
-- pthread and realloc answer is an argument.
pub mod Bucket
pub mod Content
pub mod Change
pub mod Rehash
pub mod Grow
pub mod NodeList
mod Tests
use lwmsg.Base.{
  ℕ, zero, suc, ◌+◌, ◌-◌, ◌*◌, ◌/◌, ◌%◌, ◌^◌, bit_and, bit_xor, Ordering, Bool, true, false, not,
  ◌&&◌, ◌||◌, Option, none, some, List, [], ◌∷◌, ◌++◌, ltb, leb, ◌==◌, if◌then◌else◌, get_or, set,
  length, replicate, all_below, ◌>>=◌,
}

pub record Node : Type 0 where
  pub address : ℕ
  pub key : List ℕ

-- `cmp_func`: the sign of its result says as much as the program looks at.
abbrev pub CmpFunc : Type 0
CmpFunc = List ℕ → List ℕ → Ordering

-- `striped_htable`, with the reference counts by address and the addresses given to `free_fn`.
pub record Htable : Type 0 where
  pub buckets : List (List Node)
  pub cmpfn : CmpFunc
  pub bucket_count : ℕ
  pub element_count : ℕ
  pub resize_thres_elem_count : ℕ
  pub lock_count : ℕ
  pub buckets_per_lock_pow2 : ℕ
  pub threshold_load_factor : ℕ
  pub htable_pow2_resize_factor : ℕ
  pub ref_cnt : ℕ → ℕ
  pub freed : List ℕ

abbrev hash_loop : ℕ → List ℕ → ℕ
hash_loop hash [] = hash
hash_loop hash (b ∷ input) = hash_loop (bit_xor hash b * 0x01000193 % 2 ^ 32) input

unfoldable pub fnv1a_32_hash : List ℕ → ℕ
fnv1a_32_hash input = hash_loop 0x811C9DC5 input

-- The macro C_THRES_ELEM.
unfoldable pub thres_elem : ℕ → ℕ → ℕ
thres_elem thres_factor bucket_count = bucket_count * thres_factor % 2 ^ 64 / 100

-- The bucket of a key among `count` buckets.
unfoldable pub bucket_index : ℕ → List ℕ → ℕ
unfolding fnv1a_32_hash
bucket_index count key = bit_and (fnv1a_32_hash key) (count - 1)

abbrev pub bucket : Htable → ℕ → List Node
bucket h i = get_or h.buckets i []

unfoldable pub htable_create : ℕ → ℕ → ℕ → ℕ → CmpFunc → Bool → (ℕ → Bool) → Option Htable
unfolding thres_elem all_below
htable_create size_factor resize_factor thres_load_factor per_lock cmpfn g_init init =
    let bucket_count = 2 ^ size_factor in
    let shifted = bucket_count / 2 ^ per_lock in
    let lock_count = if shifted == 0 then 1 else shifted in
    if thres_load_factor == 0
      || ltb size_factor per_lock
      || resize_factor == 0
      || leb 64 resize_factor
      || leb 64 size_factor
    then none
    else if g_init && all_below lock_count init
    then some (record {
      buckets = replicate bucket_count [];
      cmpfn = cmpfn;
      bucket_count = bucket_count;
      element_count = 0;
      resize_thres_elem_count = thres_elem thres_load_factor bucket_count;
      lock_count = lock_count;
      buckets_per_lock_pow2 = per_lock;
      threshold_load_factor = thres_load_factor;
      htable_pow2_resize_factor = resize_factor;
      ref_cnt = λ a. 1;
      freed = [];
    })
    else none

-- What the loop at the start of htable_resize ends with: an overflow, or the table with its new
-- counts and `resize_count`.
pub data Growth : Type 0 where
  overflow : Htable → Growth
  grown : Htable → ℕ → Growth

unfoldable pub resize_loop : ℕ → ℕ → Htable → ℕ → Option Growth
unfolding thres_elem
resize_loop zero old h resize_count = none
resize_loop (suc fuel) old h resize_count =
    let count = h.bucket_count * 2 ^ h.htable_pow2_resize_factor % 2 ^ 64 in
    let next = record h {
      bucket_count = count;
      resize_thres_elem_count = thres_elem h.threshold_load_factor count;
    } in
    let rest = resize_loop fuel old next ((resize_count + 1) % 2 ^ 8) in
    if leb h.resize_thres_elem_count h.element_count
    then if ltb count old then some (overflow (record h { bucket_count = old })) else rest
    else some (grown h resize_count)

-- The loop over `dest`: the node goes before the first that it compares below, or to the end.
unfoldable pub insert_moved : CmpFunc → Node → List Node → List Node
insert_moved cmp nd [] = nd ∷ []
insert_moved cmp nd (dest ∷ rest) = elim (cmp nd.key dest.key) [
  | Ordering.lt ↦ nd ∷ dest ∷ rest
  | _ ↦ dest ∷ insert_moved cmp nd rest
]

-- The loop over `src` in the bucket `i`: `kept` is the chain up to `src_prev`.
unfoldable pub rehash_chain :
    CmpFunc → ℕ → ℕ → List Node → List Node → List (List Node) → List (List Node)
unfolding insert_moved bucket_index
rehash_chain cmp count i kept [] bs = bs
rehash_chain cmp count i kept (src ∷ rest) bs =
    let dest_bucket_index = bucket_index count src.key in
    let dest = insert_moved cmp src (get_or bs dest_bucket_index []) in
    let stay = rehash_chain cmp count i (kept ++ src ∷ []) rest bs in
    let unlinked = set bs i (kept ++ rest) in
    let move = rehash_chain cmp count i kept rest (set unlinked dest_bucket_index dest) in
    if i == dest_bucket_index then stay else move

-- The loop over `src_bucket_index`, for `n` buckets from `i`.
unfoldable pub rehash : CmpFunc → ℕ → ℕ → ℕ → List (List Node) → List (List Node)
unfolding rehash_chain
rehash cmp count zero i bs = bs
rehash cmp count (suc n) i bs =
    rehash cmp count n (i + 1) (rehash_chain cmp count i [] (get_or bs i []) bs)

-- Which of the allocations and initialisations of htable_resize fails. For bucket_shrink_fail it is one
-- for the locks and then the realloc behind the label lock_resize_fail; the buckets past the old ones
-- are then in use without having been set, and the argument is what they lead to. The abort behind
-- the label lock_init_fail ends the program, so no answer stands for it.
pub data ResizeAlloc : Type 0 where
  alloc_ok bucket_resize_fail lock_resize_fail lock_init_fail : ResizeAlloc
  bucket_shrink_fail : List (List Node) → ResizeAlloc

-- The label bucket_resize_fail, where the other two labels lead.
unfoldable pub resize_fail : ℕ → Htable → Htable
unfolding thres_elem
resize_fail old h = record h {
  bucket_count = old;
  resize_thres_elem_count = thres_elem h.threshold_load_factor old;
}

unfoldable pub htable_resize : Htable → ResizeAlloc → Option Htable
unfolding resize_loop resize_fail rehash
htable_resize h alloc =
    let old = h.bucket_count in
    elim (resize_loop 65 old h 0) [
      | none ↦ none
      | some (overflow h') ↦ some h'
      | some (grown h' resize_count) ↦
          let wide = h'.buckets ++ replicate (h'.bucket_count - old) [] in
          let moved = record h' {
            lock_count = h'.bucket_count / 2 ^ h'.buckets_per_lock_pow2;
            buckets = rehash h'.cmpfn h'.bucket_count old 0 wide;
          } in
          if resize_count == 0 then some h' else elim alloc [
            | alloc_ok ↦ some moved
            | bucket_shrink_fail unset ↦ some (record h' { buckets = h'.buckets ++ unset })
            | _ ↦ some (resize_fail old h')
          ]
    ]

-- The walk of htable_add along a bucket: `none` where the key is there already.
unfoldable pub add_to_bucket : CmpFunc → Node → List Node → Option (List Node)
add_to_bucket cmp element [] = some (element ∷ [])
add_to_bucket cmp element (comparator ∷ rest) = elim (cmp element.key comparator.key) [
  | Ordering.eq ↦ none
  | Ordering.lt ↦ some (element ∷ comparator ∷ rest)
  | Ordering.gt ↦ do r ← add_to_bucket cmp element rest; some (comparator ∷ r)
]

-- The answers of trywrlock and rdlock on g_resize_lock, and of the lock of the bucket: `true` is 0.
pub record Locks : Type 0 where
  pub try_resize : Bool
  pub g_read : Bool
  pub stripe : Bool

-- htable_add once the table has the size it needs.
unfoldable pub add_locked : Htable → Node → Locks → Bool × Htable
unfolding add_to_bucket bucket_index
add_locked h element locks =
    let i = bucket_index h.bucket_count element.key in
    if not (locks.g_read && locks.stripe)
    then (false, h)
    else elim (add_to_bucket h.cmpfn element (bucket h i)) [
      | none ↦ (false, h)
      | some b ↦ (
        true,
        record h { buckets = set h.buckets i b; element_count = (h.element_count + 1) % 2 ^ 64 },
      )
    ]

unfoldable pub htable_add : Htable → Node → Locks → ResizeAlloc → Option (Bool × Htable)
unfolding htable_resize add_locked
htable_add h element locks alloc =
    let full = leb h.resize_thres_elem_count h.element_count in
    if full && locks.try_resize
    then htable_resize h alloc >>= (λ h'. some (add_locked h' element locks))
    else some (add_locked h element locks)

abbrev pub set_count : (ℕ → ℕ) → ℕ → ℕ → ℕ → ℕ
set_count f a v b = if b == a then v else f b

unfoldable pub node_get : Htable → Node → Htable
node_get h n = record h {
  ref_cnt = set_count h.ref_cnt n.address ((h.ref_cnt n.address + 1) % 2 ^ 32);
}

unfoldable pub node_put : Htable → Node → Htable
node_put h n =
    let refcnt = (h.ref_cnt n.address + (2 ^ 32 - 1)) % 2 ^ 32 in
    record h {
      ref_cnt = set_count h.ref_cnt n.address refcnt;
      freed = if refcnt == 0 then n.address ∷ h.freed else h.freed;
    }

-- The walk of htable_remove: the node that leaves the bucket, and the rest of the bucket.
unfoldable pub remove_from_bucket : CmpFunc → List ℕ → List Node → Option (Node × List Node)
remove_from_bucket cmp key [] = none
remove_from_bucket cmp key (current ∷ rest) = elim (cmp key current.key) [
  | Ordering.eq ↦ some (current, rest)
  | _ ↦ do r ← remove_from_bucket cmp key rest; some (r.0, current ∷ r.1)
]

unfoldable pub htable_remove : Htable → List ℕ → Locks → Htable
unfolding remove_from_bucket bucket_index node_put
htable_remove h key locks =
    let i = bucket_index h.bucket_count key in
    if not (locks.g_read && locks.stripe)
    then h
    else elim (remove_from_bucket h.cmpfn key (bucket h i)) [
      | none ↦ h
      | some (current, rest) ↦
          let unlinked = record h { buckets = set h.buckets i rest } in
          let put = node_put unlinked current in
          record put { element_count = (put.element_count + (2 ^ 64 - 1)) % 2 ^ 64 }
    ]

-- The walk of htable_get.
unfoldable pub find : CmpFunc → List ℕ → List Node → Option Node
find cmp key [] = none
find cmp key (seeker ∷ rest) = elim (cmp key seeker.key) [
  | Ordering.eq ↦ some seeker
  | _ ↦ find cmp key rest
]

unfoldable pub htable_get : Htable → List ℕ → Bool → Locks → Option Node × Htable
unfolding find bucket_index node_get
htable_get h key ref_inc locks =
    let target = find h.cmpfn key (bucket h (bucket_index h.bucket_count key)) in
    if not (locks.g_read && locks.stripe) then (none, h) else elim target [
      | none ↦ (none, h)
      | some nd ↦ (some nd, if ref_inc then node_get h nd else h)
    ]

-- `key` is NULL where it is none. An empty key has 0 for its first byte.
unfoldable pub htable_get_cond :
    Htable → Option (List ℕ) → (Node → Bool) → Locks → Option Node × Htable
unfolding htable_get node_put
htable_get_cond h none cond_fn locks = (none, h)
htable_get_cond h (some key) cond_fn locks =
    let (found, h') = htable_get h key true locks in
    if get_or key 0 0 == 0 then (none, h) else elim found [
      | none ↦ (none, h')
      | some nd ↦ if cond_fn nd then (some nd, h') else (none, node_put h' nd)
    ]
