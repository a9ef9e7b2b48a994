-- ===== src/Htable/Tests.antt =====
-- The hash table with user names for keys: a table of two buckets that is full, and what a resize
-- makes of it.
use lwmsg.Base.{
  ℕ, zero, suc, ◌+◌, ◌-◌, ◌%◌, ◌^◌, ◌≡◌, ◌≢◌, ◌⊎◌, inl, inr, refl, sym, ap, subst, ◌∙◌, true, none,
  some, [], ◌∷◌, arith, Returns, get_or, length, map,
}
use lwmsg.Htable.{
  Node, Htable, Locks, alloc_ok, bucket_index, fnv1a_32_hash, htable_add, htable_remove,
  htable_resize,
}
use lwmsg.Htable.Bucket.{Has, IsSorted}
use lwmsg.Htable.Content.{IsValid, Contains}
use lwmsg.Htable.Change.{Removed, htable_remove-Removed}
use lwmsg.Htable.Grow.{Resized, htable_resize-Resized, AddPost, htable_add-Added}
use lwmsg.ClHandle.{std_client_cmp}
use lwmsg.ClHandle.NameOrder.{IsName, std_client_cmp-CmpLaws}

abbrev open_locks : Locks
open_locks = record { try_resize = true; g_read = true; stripe = true }

abbrev bob : Node
bob = record { address = 7; key = 98 ∷ 111 ∷ 98 ∷ [] }

-- fnv1a_32_hash of "bob".
bob-hash : fnv1a_32_hash bob.key ≡ 0x86c6a0d4
unfolding fnv1a_32_hash
bob-hash = refl

-- One bucket that is full.
abbrev one_bucket : Htable
one_bucket = record {
  buckets = (bob ∷ []) ∷ [];
  cmpfn = std_client_cmp;
  bucket_count = 1;
  element_count = 1;
  resize_thres_elem_count = 1;
  lock_count = 1;
  buckets_per_lock_pow2 = 0;
  threshold_load_factor = 100;
  htable_pow2_resize_factor = 1;
  ref_cnt = λ a. 1;
  freed = [];
}

abbrev alice : Node
alice = record { address = 9; key = 97 ∷ 108 ∷ [] }

alice-IsName : IsName alice.key
alice-IsName = (omega arith, (omega arith, tt))

bob-IsName : IsName bob.key
bob-IsName = (omega arith, (omega arith, (omega arith, tt)))

one_bucket-home : (i : ℕ) (a : Node) → (Contains one_bucket.buckets a) → a ≡ bob
one_bucket-home i a (zero, inl e) = e
one_bucket-home i a (zero, inr m) = absurd m
one_bucket-home i a (suc j, m) = absurd m

one_bucket-IsSorted : (i : ℕ) → IsSorted std_client_cmp (get_or one_bucket.buckets i [])
one_bucket-IsSorted zero = (λ a m. absurd m, tt)
one_bucket-IsSorted (suc i) = tt

bob-place : bucket_index 1 bob.key ≡ 0
unfolding bucket_index
bob-place = refl

one_bucket-place :
    (i : ℕ) (a : Node) → Has a (get_or one_bucket.buckets i []) → bucket_index 1 a.key ≡ i
one_bucket-place zero a m =
    ap (λ x. bucket_index 1 x.key) (one_bucket-home zero a (zero, m)) ∙ bob-place
one_bucket-place (suc i) a m = absurd m

one_bucket-IsValid : IsValid IsName one_bucket
one_bucket-IsValid = record {
  laws = std_client_cmp-CmpLaws;
  wired = record {
    keys = λ i a m. subst (λ x. IsName x.key) (sym (one_bucket-home i a (i, m))) bob-IsName;
    sorted = one_bucket-IsSorted;
    home = one_bucket-place;
  };
  sized = refl;
  power = (0, omega arith, refl);
  factor = omega arith;
  counted = refl;
}

-- The full table grows to two buckets, and the node moves to the bucket of its key.
grown_buckets :
    (elim (htable_resize one_bucket alloc_ok) [ none ↦ [] | some h ↦ map length h.buckets ])
    ≡ 1 ∷ 0 ∷ []
unfolding htable_resize bucket_index
grown_buckets = refl

htable_resize-Resized_example :
    Returns (Resized IsName one_bucket) (htable_resize one_bucket alloc_ok)
htable_resize-Resized_example = htable_resize-Resized one_bucket one_bucket-IsValid alloc_ok tt

htable_add-Added_example :
    Returns
      (AddPost one_bucket one_bucket-IsValid alice)
      (htable_add one_bucket alice open_locks alloc_ok)
htable_add-Added_example =
    htable_add-Added one_bucket one_bucket-IsValid alice open_locks alloc_ok tt alice-IsName
      (omega arith) refl

htable_remove-Removed_example :
    ((htable_remove one_bucket bob.key open_locks ≡ one_bucket)
      × ((a : Node) → Contains one_bucket.buckets a → a.key ≢ bob.key))
    ⊎ ((c : Node) × Contains one_bucket.buckets c
        × (c.key ≡ bob.key)
        × Removed IsName bob.key one_bucket (htable_remove one_bucket bob.key open_locks)
        × ((htable_remove one_bucket bob.key open_locks).ref_cnt c.address
            ≡ (one_bucket.ref_cnt c.address + (2 ^ 32 - 1)) % 2 ^ 32))
htable_remove-Removed_example =
    htable_remove-Removed one_bucket one_bucket-IsValid bob.key open_locks bob-IsName (omega arith)
      refl
