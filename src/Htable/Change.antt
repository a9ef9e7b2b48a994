-- ===== src/Htable/Change.antt =====
-- What htable_create, htable_add and htable_remove of server/htable.c make of the nodes of the table.
use lwmsg.Base.{
  ℕ, zero, suc, ◌+◌, ◌-◌, ◌%◌, ◌^◌, ◌≤◌, ◌<◌, List, [], Bool, true, false, ◌≡◌, ◌≢◌, ◌⊎◌, ◌↔◌, inl,
  inr, refl, sym, ap, subst, ◌∙◌, arith, get_or, set, length-set, ◌&&◌, replicate, length-replicate,
  Returns, all_below, ◌==◌, ◌||◌, ltb, leb, ◌/◌, if◌then◌else◌,
}
use lwmsg.Htable.{
  Node, CmpFunc, Htable, Locks, bucket, bucket_index, add_locked, htable_remove, node_put,
  htable_create, thres_elem,
}
use lwmsg.Htable.Bucket.{
  CmpLaws, Has, IsSorted, Inserted, Taken, add_to_bucket_lem, remove_from_bucket_lem,
}
use lwmsg.Htable.Content.{
  IsValid, Contains, Contains-set, Contains-split, set-IsWired, total, total-set, index-lt,
  Contains-home,
}

-- `h'` is `h` with the node `el`.
pub record Added (IsKey : List ℕ → Type 0) (el : Node) (h h' : Htable) : Type 0 where
  pub valid : IsValid IsKey h'
  pub members : (a : Node) → Contains h'.buckets a ↔ ((a ≡ el) ⊎ Contains h.buckets a)
  pub fresh : (a : Node) → Contains h.buckets a → a.key ≢ el.key
  pub one_more : h'.element_count ≡ suc h.element_count

-- `h'` is `h` without its node of the key, and with its count one lower.
pub record Removed (IsKey : List ℕ → Type 0) (key : List ℕ) (h h' : Htable) : Type 0 where
  pub valid : IsValid IsKey h'
  pub members : (a : Node) → Contains h'.buckets a ↔ (Contains h.buckets a × (a.key ≢ key))
  pub one_less : suc h'.element_count ≡ h.element_count

module _ {IsKey : List ℕ → Type 0} (h : Htable) (v : IsValid IsKey h) where
  module _ (el : Node) (b' : List Node) (ke : IsKey el.key)
      (few : h.element_count + 1 < 2 ^ 64) where
    abbrev here : ℕ
    here = bucket_index h.bucket_count el.key

    abbrev more : Htable
    more = record h {
      buckets = set h.buckets here b';
      element_count = (h.element_count + 1) % 2 ^ 64;
    }

    more-Added : Inserted h.cmpfn el (bucket h here) b' → Added IsKey el h more
    more-Added ins =
        let lt = index-lt h v el.key in
        record {
          valid = record {
            laws = v.laws;
            wired = set-IsWired h.bucket_count h.buckets here b' lt v.wired ins.sorted (λ a m.
                elim ((ins.members a).0 m) [
                  | inl e ↦ (
                    subst (λ x. IsKey x.key) (sym e) ke,
                    ap (λ x. bucket_index h.bucket_count x.key) e,
                  )
                  | inr m' ↦ (v.wired.keys here a m', v.wired.home here a m')
                ]);
            sized = length-set h.buckets here b' ∙ v.sized;
            power = v.power;
            factor = v.factor;
            counted = omega (arith, total-set h.buckets here b' lt, ins.longer, v.counted, few);
          };
          members = λ a. ground (
            arith,
            Contains-set h.buckets here b' a lt,
            Contains-split h.buckets here a,
            ins.members a,
          );
          fresh = λ a c e. ins.fresh a (Contains-home h v a el.key c e) e;
          one_more = omega (arith, few);
        }

  -- Both locks taken, htable_add finds the key in the table or puts the node there.
  pub add_locked_lem :
      (el : Node) (locks : Locks)
      → IsKey el.key
      → h.element_count + 1 < 2 ^ 64
      → (locks.g_read && locks.stripe) ≡ true
      → ((add_locked h el locks ≡ (false, h))
          × ((a : Node) × Contains h.buckets a × (a.key ≡ el.key)))
        ⊎ ((h' : Htable) × (add_locked h el locks ≡ (true, h')) × Added IsKey el h h')
  unfolding add_locked
  add_locked_lem el locks ke few locked =
      let i = bucket_index h.bucket_count el.key in
      elim (add_to_bucket_lem h.cmpfn IsKey v.laws el (bucket h i) ke (v.wired.keys i)
        (v.wired.sorted i)) [
          | inl (e, (a, m, ek)) ↦ inl (rw (locked, e) refl, (a, (i, m), ek))
          | inr (b', e, ins) ↦
              inr (more el b' ke few, rw (locked, e) refl, more-Added el b' ke few ins)
        ]

  module _ (key : List ℕ) (rest : List Node) (c : Node) (kk : IsKey key) where
    abbrev there : ℕ
    there = bucket_index h.bucket_count key

    abbrev less : Htable
    less =
        let put = node_put (record h { buckets = set h.buckets there rest }) c in
        record put { element_count = (put.element_count + (2 ^ 64 - 1)) % 2 ^ 64 }

    less-Removed :
        Has c (bucket h there)
        → Taken h.cmpfn key (bucket h there) rest
        → h.element_count < 2 ^ 64
        → Removed IsKey key h less
    unfolding node_put
    less-Removed mc t few =
        let lt = index-lt h v key in
        record {
          valid = record {
            laws = v.laws;
            wired = set-IsWired h.bucket_count h.buckets there rest lt v.wired t.sorted (λ a m.
                let m' = ((t.members a).0 m).0 in
                (v.wired.keys there a m', v.wired.home there a m'));
            sized = length-set h.buckets there rest ∙ v.sized;
            power = v.power;
            factor = v.factor;
            counted = omega (arith, total-set h.buckets there rest lt, t.shorter, v.counted, few);
          };
          members = λ a. (
            λ m. elim ((Contains-set h.buckets there rest a lt).0 m) [
              | inl m' ↦ ((there, ((t.members a).0 m').0), ((t.members a).0 m').1)
              | inr (j, ne, m') ↦ (
                (j, m'),
                λ e. ne (ap (bucket_index h.bucket_count) (sym e) ∙ v.wired.home j a m'),
              )
            ],
            λ (m, differs).
                (Contains-set h.buckets there rest a lt).1
                  (elim ((Contains-split h.buckets there a).0 m) [
                    | inl m' ↦ inl ((t.members a).1 (m', differs))
                    | inr m' ↦ inr m'
                  ]),
          );
          one_less = omega (arith, total-set h.buckets there rest lt, t.shorter, v.counted, few);
        }

  -- With both locks taken, htable_remove leaves a table without the key as it is, and otherwise takes
  -- the node of the key out of a valid table, lowers the count by one and drops one reference.
  pub htable_remove-Removed :
      (key : List ℕ) (locks : Locks)
      → IsKey key
      → h.element_count < 2 ^ 64
      → (locks.g_read && locks.stripe) ≡ true
      → ((htable_remove h key locks ≡ h) × ((a : Node) → Contains h.buckets a → a.key ≢ key))
        ⊎ ((c : Node) × Contains h.buckets c
            × (c.key ≡ key)
            × Removed IsKey key h (htable_remove h key locks)
            × ((htable_remove h key locks).ref_cnt c.address
                ≡ (h.ref_cnt c.address + (2 ^ 32 - 1)) % 2 ^ 32))
  unfolding htable_remove
  htable_remove-Removed key locks kk few locked =
      let i = bucket_index h.bucket_count key in
      elim (remove_from_bucket_lem h.cmpfn IsKey v.laws key (bucket h i) kk (v.wired.keys i)
        (v.wired.sorted i)) [
          | inl (e, absent) ↦
              inl (rw (locked, e) refl, λ a m ek. absent a (Contains-home h v a key m ek) ek)
          | inr (c, rest, e, m, ck, t) ↦
              let result : htable_remove h key locks ≡ less key rest c kk = rw (locked, e) refl in
              inr (
                c,
                (i, m),
                ck,
                subst (Removed IsKey key h) (sym result) (less-Removed key rest c kk m t few),
                ap (λ x. x.ref_cnt c.address) result ∙ ground arith,
              )
        ]

replicate-nil : (n j : ℕ) → get_or (replicate {A = List Node} n []) j [] ≡ []
replicate-nil zero j = refl
replicate-nil (suc n) zero = refl
replicate-nil (suc n) (suc j) = replicate-nil n j

total-replicate : (n : ℕ) → total (replicate n []) ≡ 0
total-replicate zero = refl
total-replicate (suc n) = omega (arith, total-replicate n)

empty-absurd : (n j : ℕ) (a : Node) → Has a (get_or (replicate {A = List Node} n []) j []) → ⊥
empty-absurd n j a m = subst (Has a) (replicate-nil n j) m

create-guard :
    (size_factor resize_factor load per_lock : ℕ)
    → 0 < load
    → per_lock ≤ size_factor
    → 0 < resize_factor
    → resize_factor < 64
    → size_factor < 64
    → (load == 0
        || ltb size_factor per_lock
        || resize_factor == 0
        || leb 64 resize_factor
        || leb 64 size_factor)
      ≡ false
create-guard size_factor resize_factor load per_lock l pl r rs s = ground arith

all_below-true : (n : ℕ) (p : ℕ → Bool) → ((i : ℕ) → p i ≡ true) → all_below n p ≡ true
unfolding all_below
all_below-true zero p all = refl
all_below-true (suc n) p all = ground (arith, all n, all_below-true n p all)

abbrev created : CmpFunc → ℕ → ℕ → ℕ → ℕ → Htable
created cmp size_factor resize_factor load per_lock = record {
  buckets = replicate (2 ^ size_factor) [];
  cmpfn = cmp;
  bucket_count = 2 ^ size_factor;
  element_count = 0;
  resize_thres_elem_count = thres_elem load (2 ^ size_factor);
  lock_count = if 2 ^ size_factor / 2 ^ per_lock == 0 then 1 else 2 ^ size_factor / 2 ^ per_lock;
  buckets_per_lock_pow2 = per_lock;
  threshold_load_factor = load;
  htable_pow2_resize_factor = resize_factor;
  ref_cnt = λ a. 1;
  freed = [];
}

-- With a comparator that keeps the laws, arguments in range and locks that can be initialised,
-- htable_create gives a valid table without nodes, of 2 ^ htable_pow2_size_factor buckets.
htable_create-IsValid :
    (cmp : CmpFunc) (IsKey : List ℕ → Type 0) (size_factor resize_factor load per_lock : ℕ)
    (init : ℕ → Bool)
    → CmpLaws cmp IsKey
    → 0 < load
    → per_lock ≤ size_factor
    → 0 < resize_factor
    → resize_factor < 64
    → size_factor < 64
    → ((i : ℕ) → init i ≡ true)
    → Returns
        (λ h.
          IsValid IsKey h
          × ((a : Node) → ¬ Contains h.buckets a)
          × (h.bucket_count ≡ 2 ^ size_factor))
        (htable_create size_factor resize_factor load per_lock cmp true init)
unfolding htable_create
htable_create-IsValid cmp IsKey size_factor resize_factor load per_lock init laws l pl r rs s
      inits =
    (
      created cmp size_factor resize_factor load per_lock,
      rw
          (
            create-guard size_factor resize_factor load per_lock l pl r rs s,
            all_below-true
                (if 2 ^ size_factor / 2 ^ per_lock == 0 then 1 else 2 ^ size_factor / 2 ^ per_lock)
                init inits,
          )
          refl,
      (
        record {
          laws = laws;
          wired = record {
            keys = λ i a m. absurd (empty-absurd (2 ^ size_factor) i a m);
            sorted = λ i. subst (IsSorted cmp) (sym (replicate-nil (2 ^ size_factor) i)) tt;
            home = λ i a m. absurd (empty-absurd (2 ^ size_factor) i a m);
          };
          sized = length-replicate (2 ^ size_factor) [];
          power = (size_factor, s, refl);
          factor = r;
          counted = sym (total-replicate (2 ^ size_factor));
        },
        λ a (j, m). empty-absurd (2 ^ size_factor) j a m,
        refl,
      ),
    )
