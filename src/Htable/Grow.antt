-- ===== src/Htable/Grow.antt =====
-- htable_resize and htable_add of server/htable.c, as a whole.
use lwmsg.Base.{
  ℕ, zero, suc, ◌+◌, ◌-◌, ◌*◌, ◌/◌, ◌%◌, ◌^◌, ◌≤◌, ◌<◌, List, [], ◌∷◌, ◌++◌, some, Bool, true,
  false, ◌≡◌, ◌⊎◌, ◌↔◌, inl, inr, refl, sym, ap, subst, ◌∙◌, arith, length, get_or, replicate,
  length-append, length-replicate, ltb, ltb→lt, ==_iff, lt→ltb, leb, Bool-cases, if◌then◌else◌,
  ◌==◌, Returns, ◌&&◌,
}
use native.Mathlib.Nat.{pow-suc, pow-le-pow_right, mul-mod_right}
use lwmsg.Htable.{
  Node, Htable, Locks, Growth, overflow, grown, ResizeAlloc, alloc_ok, bucket_resize_fail,
  lock_resize_fail, lock_init_fail, bucket_shrink_fail, bucket_index, resize_loop, resize_fail,
  rehash, htable_resize, htable_add, add_locked, thres_elem,
}
use lwmsg.Htable.Bucket.{CmpLaws, Has, IsSorted}
use lwmsg.Htable.Content.{IsWired, IsValid, Contains, total, bucket_count-positive, pow-positive}
use lwmsg.Htable.Change.{Added, add_locked_lem}
use lwmsg.Htable.Rehash.{IsMixed, Home, Moved, rehash-Moved}

-- `h'` differs from `h` in its bucket count and its threshold at most.
pub record Recounted (h h' : Htable) : Type 0 where
  same_buckets : h'.buckets ≡ h.buckets
  same_cmpfn : h'.cmpfn ≡ h.cmpfn
  same_elements : h'.element_count ≡ h.element_count
  same_factor : h'.htable_pow2_resize_factor ≡ h.htable_pow2_resize_factor

Recounted-refl : (h : Htable) → Recounted h h
Recounted-refl h = record {
  same_buckets = refl;
  same_cmpfn = refl;
  same_elements = refl;
  same_factor = refl;
}

add-zero : (k : ℕ) → k + 0 ≡ k
add-zero k = omega arith

add-suc : (k f : ℕ) → k + suc f ≡ suc (k + f)
add-suc k f = omega arith

ltb-ge : (a b : ℕ) → b ≤ a → ltb a b ≡ false
ltb-ge a b le = ground arith

pow-add : (k f : ℕ) → 2 ^ (k + f) ≡ 2 ^ k * 2 ^ f
pow-add k zero = ap (λ x. 2 ^ x) (add-zero k) ∙ omega arith
pow-add k (suc f) =
    ap (λ x. 2 ^ x) (add-suc k f)
    ∙ omega (arith, pow-suc 2 (k + f), ap (λ x. 2 ^ k * x) (pow-suc 2 f), pow-add k f)

-- A power of two that is shifted leaves 64 bits or is one too.
shift-cases :
    (k f : ℕ)
    → (2 ^ k * 2 ^ f % 2 ^ 64 ≡ 0) ⊎ ((k + f < 64) × (2 ^ k * 2 ^ f % 2 ^ 64 ≡ 2 ^ (k + f)))
shift-cases k f = elim (Bool-cases (ltb (k + f) 64)) [
  | inl e ↦
      let lt = ltb→lt (k + f) 64 e in
      let le = pow-le-pow_right {n = 2} (omega arith) {i = suc (k + f)} {j = 64} lt in
      inr (lt, omega (arith, pow-add k f, pow-suc 2 (k + f), le, pow-positive (k + f)))
  | inr e ↦
      let split : k + f ≡ 64 + (k + f - 64) = ground (arith, e) in
      inl (
        ap (λ x. x % 2 ^ 64) (sym (pow-add k f) ∙ ap (λ x. 2 ^ x) split ∙ pow-add 64 (k + f - 64))
        ∙ mul-mod_right (2 ^ 64) (2 ^ (k + f - 64)))
]

-- How the loop ends: the old count is back after an overflow, or the count is a power of two that is
-- no smaller than the old one.
Ended : Htable → ℕ → Growth → Type 0
Ended h old (overflow h') = Recounted h h' × (h'.bucket_count ≡ old)
Ended h old (grown h' n) =
    Recounted h h'
    × (old ≤ h'.bucket_count)
    × ((k : ℕ) × (k < 64) × (h'.bucket_count ≡ 2 ^ k))
    × ((n ≡ 0) → h'.bucket_count ≡ old)
    × (h'.element_count < h'.resize_thres_elem_count)

-- The loop ends: each round shifts a power of two up, and 64 shifts leave the word. `n` is
-- resize_count, which stays small.
resize_loop-Ended :
    (h0 : Htable) (fuel old k n : ℕ) (h : Htable)
    → Recounted h0 h
    → h.bucket_count ≡ 2 ^ k
    → k < 64
    → 0 < h.htable_pow2_resize_factor
    → 64 < fuel + k
    → 0 < old
    → old ≤ h.bucket_count
    → n ≤ k
    → ((n ≡ 0) → h.bucket_count ≡ old)
    → Returns (Ended h0 old) (resize_loop fuel old h n)
unfolding resize_loop Ended
resize_loop-Ended h0 zero old k n h r e small pos enough old_pos le nk start = absurd (omega arith)
resize_loop-Ended h0 (suc fuel) old k n h r e small pos enough old_pos le nk start =
    let f = h.htable_pow2_resize_factor in
    let count = h.bucket_count * 2 ^ f % 2 ^ 64 in
    let shifted : count ≡ 2 ^ k * 2 ^ f % 2 ^ 64 = ap (λ x. x * 2 ^ f % 2 ^ 64) e in
    let next = record h {
      bucket_count = count;
      resize_thres_elem_count = thres_elem h.threshold_load_factor count;
    } in
    let back = overflow (record h { bucket_count = old }) in
    let goal = λ (full small : Bool). Returns (Ended h0 old) (
      if full
      then if small then some back else resize_loop fuel old next ((n + 1) % 2 ^ 8)
      else some (grown h n)) in
    elim (Bool-cases (leb h.resize_thres_elem_count h.element_count)) [
      | inr stop ↦
          subst (λ b. goal b (ltb count old)) (sym stop)
            (grown h n, refl, (r, le, (k, small, e), start, ground (arith, stop)))
      | inl full ↦ elim (shift-cases k f) [
        | inl zero_count ↦
            subst (λ b. goal b (ltb count old)) (sym full)
              (subst (goal true)
                (sym (lt→ltb count old (omega (arith, shifted, zero_count, old_pos))))
                (
                  back,
                  refl,
                  (
                    record {
                      same_buckets = r.same_buckets;
                      same_cmpfn = r.same_cmpfn;
                      same_elements = r.same_elements;
                      same_factor = r.same_factor;
                    },
                    refl,
                  ),
                ))
        | inr (in_word, power) ↦
            let bigger : old ≤ count = omega (
              arith,
              shifted,
              power,
              pow-add k f,
              le,
              e,
              pow-le-pow_right {n = 2} (omega arith) {i = k} {j = k + f} (omega arith),
            ) in
            subst (λ b. goal b (ltb count old)) (sym full)
              (subst (goal true) (sym (ltb-ge count old bigger)) (
                resize_loop-Ended h0 fuel old (k + f) ((n + 1) % 2 ^ 8) next
                  record {
                    same_buckets = r.same_buckets;
                    same_cmpfn = r.same_cmpfn;
                    same_elements = r.same_elements;
                    same_factor = r.same_factor;
                  }
                  (shifted ∙ power) in_word pos (omega arith) old_pos bigger (omega arith)
                  (λ z. absurd (omega (arith, z, nk, small)))))
      ]
    ]

get_or-wide :
    (bs : List (List Node)) (n j : ℕ) → get_or (bs ++ replicate n []) j [] ≡ get_or bs j []
get_or-wide [] zero j = refl
get_or-wide [] (suc n) zero = refl
get_or-wide [] (suc n) (suc j) = get_or-wide [] n j
get_or-wide (b ∷ bs) n zero = refl
get_or-wide (b ∷ bs) n (suc j) = get_or-wide bs n j

total-wide : (bs : List (List Node)) (n : ℕ) → total (bs ++ replicate n []) ≡ total bs
total-wide [] zero = refl
total-wide [] (suc n) = omega (arith, total-wide [] n)
total-wide (b ∷ bs) n = omega (arith, total-wide bs n)

get_or-past : (bs : List (List Node)) (j : ℕ) (d : List Node) → length bs ≤ j → get_or bs j d ≡ d
get_or-past [] j d le = refl
get_or-past (b ∷ bs) zero d le = absurd (omega arith)
get_or-past (b ∷ bs) (suc j) d le = get_or-past bs j d (omega arith)

-- What htable_resize keeps.
pub record Resized (IsKey : List ℕ → Type 0) (h h' : Htable) : Type 0 where
  pub valid : IsValid IsKey h'
  pub members : (a : Node) → Contains h'.buckets a ↔ Contains h.buckets a
  pub same_elements : h'.element_count ≡ h.element_count

-- The buckets that are not set are given back, or set.
abbrev pub GivesBack : ResizeAlloc → Type 0
GivesBack (bucket_shrink_fail unset) = ⊥
GivesBack _ = Unit

module _ {IsKey : List ℕ → Type 0} (h : Htable) (v : IsValid IsKey h) where
  -- The old count is back in place.
  kept-Resized :
      (h' : Htable) → Recounted h h' → h'.bucket_count ≡ h.bucket_count → Resized IsKey h h'
  kept-Resized h' r e = record {
    valid = record {
      laws = subst (λ c. CmpLaws c IsKey) (sym r.same_cmpfn) v.laws;
      wired =
          subst (λ c. IsWired c IsKey h'.bucket_count h'.buckets) (sym r.same_cmpfn)
            (subst (λ n. IsWired h.cmpfn IsKey n h'.buckets) (sym e)
              (subst (IsWired h.cmpfn IsKey h.bucket_count) (sym r.same_buckets) v.wired));
      sized = ap length r.same_buckets ∙ v.sized ∙ sym e;
      power = (let (k, lt, p) = v.power in (k, lt, e ∙ p));
      factor = omega (arith, r.same_factor, v.factor);
      counted = r.same_elements ∙ v.counted ∙ ap total (sym r.same_buckets);
    };
    members = λ a.
        subst (λ bs. Contains bs a ↔ Contains h.buckets a) (sym r.same_buckets) (λ c. c, λ c. c);
    same_elements = r.same_elements;
  }

  wide-IsMixed : (n : ℕ) → IsMixed h.cmpfn IsKey v.laws (h.buckets ++ replicate n [])
  wide-IsMixed n = record {
    keys = λ i a m. v.wired.keys i a (subst (Has a) (get_or-wide h.buckets n i) m);
    sorted = λ i. subst (IsSorted h.cmpfn) (sym (get_or-wide h.buckets n i)) (v.wired.sorted i);
    apart = λ i j a b ma mb e.
        sym (v.wired.home i a (subst (Has a) (get_or-wide h.buckets n i) ma))
        ∙ ap (bucket_index h.bucket_count) e
        ∙ v.wired.home j b (subst (Has b) (get_or-wide h.buckets n j) mb);
  }

  -- The nodes have moved to the buckets of the new count.
  module _ (h' : Htable) (r : Recounted h h') (le : h.bucket_count ≤ h'.bucket_count)
      (power : (k : ℕ) × (k < 64) × (h'.bucket_count ≡ 2 ^ k)) where
    abbrev count : ℕ
    count = h'.bucket_count

    abbrev wide : List (List Node)
    wide = h.buckets ++ replicate (count - h.bucket_count) []

    abbrev placed : List (List Node)
    placed = rehash h.cmpfn count h.bucket_count 0 wide

    wide-length : length wide ≡ count
    wide-length = omega (
      arith,
      length-append h.buckets (replicate (count - h.bucket_count) []),
      length-replicate {A = List Node} (count - h.bucket_count) [],
      v.sized,
      le,
    )

    placed-Moved :
        Moved h.cmpfn IsKey v.laws count wide placed
        × ((j : ℕ) → j < h.bucket_count → Home h.cmpfn IsKey v.laws count placed j)
    placed-Moved =
        let (m, homes) =
          rehash-Moved h.cmpfn IsKey v.laws count h.bucket_count 0 wide
            (wide-IsMixed (count - h.bucket_count)) (omega (arith, le, bucket_count-positive h v))
            wide-length (omega (arith, le)) (λ j lt. absurd (omega arith)) in
        (m, λ j lt. homes j (omega (arith, lt)))

    -- A bucket past the old ones was empty.
    new-Home : (j : ℕ) → h.bucket_count ≤ j → Home h.cmpfn IsKey v.laws count wide j
    new-Home j past a m = absurd (
        subst (Has a)
          (get_or-wide h.buckets (count - h.bucket_count) j
            ∙ get_or-past h.buckets j [] (omega (arith, v.sized, past)))
          m)

    placed-IsWired : IsWired h.cmpfn IsKey count placed
    placed-IsWired =
        let (m, homes) = placed-Moved in
        record {
          keys = m.mixed.keys;
          sorted = m.mixed.sorted;
          home = λ j a ma. elim (Bool-cases (ltb j h.bucket_count)) [
            | inl e ↦ homes j (ltb→lt j h.bucket_count e) a ma
            | inr e ↦ m.homes j (new-Home j (ground (arith, e))) a ma
          ];
        }

    moved-Resized :
        (locks : ℕ)
        → Resized IsKey h (record h' {
          lock_count = locks;
          buckets =
              rehash h'.cmpfn count h.bucket_count 0
                (h'.buckets ++ replicate (count - h.bucket_count) []);
        })
    moved-Resized locks =
        let (m, homes) = placed-Moved in
        let same : rehash h'.cmpfn count h.bucket_count 0
              (h'.buckets ++ replicate (count - h.bucket_count) [])
            ≡ placed =
          ap
            (λ c.
              rehash c count h.bucket_count 0 (h'.buckets ++ replicate (count - h.bucket_count) []))
            r.same_cmpfn
          ∙ ap
              (λ b.
                rehash h.cmpfn count h.bucket_count 0 (b ++ replicate (count - h.bucket_count) []))
              r.same_buckets in
        record {
          valid = record {
            laws = subst (λ c. CmpLaws c IsKey) (sym r.same_cmpfn) v.laws;
            wired =
                subst
                  (λ c. IsWired c IsKey count (
                    rehash h'.cmpfn count h.bucket_count 0
                      (h'.buckets ++ replicate (count - h.bucket_count) [])))
                  (sym r.same_cmpfn)
                  (subst (IsWired h.cmpfn IsKey count) (sym same) placed-IsWired);
            sized = ap length same ∙ m.sized ∙ wide-length;
            power = power;
            factor = omega (arith, r.same_factor, v.factor);
            counted =
                r.same_elements
                ∙ v.counted
                ∙ sym (total-wide h.buckets (count - h.bucket_count))
                ∙ sym m.same_total
                ∙ ap total (sym same);
          };
          members = λ a.
              subst (λ bs. Contains bs a ↔ Contains h.buckets a) (sym same)
                (
                  λ c.
                      (let (j, mj) = (m.members a).0 c in
                        (j, subst (Has a) (get_or-wide h.buckets (count - h.bucket_count) j) mj)),
                  λ (j, mj). (m.members a).1 (
                    j,
                    subst (Has a) (sym (get_or-wide h.buckets (count - h.bucket_count) j)) mj,
                  ),
                );
          same_elements = r.same_elements;
        }

  -- The labels for a failure put the old count back.
  fail-Resized : (h' : Htable) → Recounted h h' → Resized IsKey h (resize_fail h.bucket_count h')
  unfolding resize_fail
  fail-Resized h' r =
      kept-Resized (resize_fail h.bucket_count h')
        record {
          same_buckets = r.same_buckets;
          same_cmpfn = r.same_cmpfn;
          same_elements = r.same_elements;
          same_factor = r.same_factor;
        }
        refl

  after_loop :
      (alloc : ResizeAlloc) (g : Growth)
      → GivesBack alloc
      → Ended h h.bucket_count g
      → resize_loop 65 h.bucket_count h 0 ≡ some g
      → Returns (Resized IsKey h) (htable_resize h alloc)
  unfolding htable_resize Ended
  after_loop alloc (overflow h') gives (r, back) run =
      (h', rw (run, htable_resize) refl, kept-Resized h' r back)
  after_loop alloc (grown h' n) gives (r, le, power, still, below) run =
      elim (Bool-cases (n == 0)) [
        | inl z ↦
            (h', rw (run, z, htable_resize) refl, kept-Resized h' r (still ((==_iff n 0).0 z)))
        | inr z ↦
            (elim alloc as (λ k. GivesBack k → Returns (Resized IsKey h) (htable_resize h k)) [
              | alloc_ok ↦ λ _.
                  let locks = h'.bucket_count / 2 ^ h'.buckets_per_lock_pow2 in
                  let m = moved-Resized h' r le power locks in
                  (_, rw (run, z, htable_resize) refl, m)
              | bucket_shrink_fail unset ↦ λ never. absurd never
              | bucket_resize_fail ↦ λ _. (_, rw (run, z, htable_resize) refl, fail-Resized h' r)
              | lock_resize_fail ↦ λ _. (_, rw (run, z, htable_resize) refl, fail-Resized h' r)
              | lock_init_fail ↦ λ _. (_, rw (run, z, htable_resize) refl, fail-Resized h' r)
            ])
              gives
      ]

  grows : Returns (Ended h h.bucket_count) (resize_loop 65 h.bucket_count h 0)
  grows =
      let (k, lt, e) = v.power in
      resize_loop-Ended h 65 h.bucket_count k 0 h (Recounted-refl h) e lt v.factor (omega arith)
        (bucket_count-positive h v) (omega arith) (omega arith) (λ z. refl)

  -- htable_resize of a valid table ends. If every allocation succeeds, or one fails that it can undo (any
  -- but the realloc that gives the new buckets back after the locks could not be had), the table
  -- that it leaves is valid and has the same nodes and the same count of them.
  pub htable_resize-Resized :
      (alloc : ResizeAlloc) → GivesBack alloc → Returns (Resized IsKey h) (htable_resize h alloc)
  htable_resize-Resized alloc gives =
      let (g, run, ended) = grows in after_loop alloc g gives ended run

  any_result :
      (alloc : ResizeAlloc)
      → Returns (Resized IsKey h) (htable_resize h alloc)
      → Returns (λ _. Unit {0}) (htable_resize h alloc)
  any_result alloc (h', run, z) = (h', run, tt)

  shrink_fail_returns :
      (unset : List (List Node)) (g : Growth)
      → resize_loop 65 h.bucket_count h 0 ≡ some g
      → Returns (λ _. Unit {0}) (htable_resize h (bucket_shrink_fail unset))
  unfolding htable_resize
  shrink_fail_returns unset (overflow h') run = (h', rw (run, htable_resize) refl, tt)
  shrink_fail_returns unset (grown h' n) run = elim (Bool-cases (n == 0)) [
    | inl z ↦ (h', rw (run, z, htable_resize) refl, tt)
    | inr z ↦ (record h' { buckets = h'.buckets ++ unset }, rw (run, z, htable_resize) refl, tt)
  ]

  -- It returns in any case.
  resize_returns : (alloc : ResizeAlloc) → Returns (λ _. Unit {0}) (htable_resize h alloc)
  resize_returns alloc_ok = any_result alloc_ok (htable_resize-Resized alloc_ok tt)
  resize_returns (bucket_shrink_fail unset) = shrink_fail_returns unset grows.0 grows.1
  resize_returns bucket_resize_fail =
      any_result bucket_resize_fail (htable_resize-Resized bucket_resize_fail tt)
  resize_returns lock_resize_fail =
      any_result lock_resize_fail (htable_resize-Resized lock_resize_fail tt)
  resize_returns lock_init_fail =
      any_result lock_init_fail (htable_resize-Resized lock_init_fail tt)

  -- So does htable_add.
  pub add_returns :
      (el : Node) (locks : Locks) (alloc : ResizeAlloc)
      → Returns (λ _. Unit {0}) (htable_add h el locks alloc)
  unfolding htable_add
  add_returns el locks alloc =
      let (h1, run, _) = resize_returns alloc in
      elim (Bool-cases (leb h.resize_thres_elem_count h.element_count && locks.try_resize)) [
        | inl e ↦ (add_locked h1 el locks, rw (e, run, htable_add) refl, tt)
        | inr e ↦ (add_locked h el locks, rw (e, htable_add) refl, tt)
      ]

  -- What htable_add answers and leaves.
  abbrev pub AddPost : Node → Bool × Htable → Type 0
  AddPost el (ok, h') =
      ((ok ≡ false) × Resized IsKey h h' × ((a : Node) × Contains h.buckets a × (a.key ≡ el.key)))
      ⊎ ((ok ≡ true) × Added IsKey el h h')

  add-Resized :
      (h1 : Htable) (el : Node) (locks : Locks)
      → Resized IsKey h h1
      → IsKey el.key
      → h.element_count + 1 < 2 ^ 64
      → (locks.g_read && locks.stripe) ≡ true
      → AddPost el (add_locked h1 el locks)
  add-Resized h1 el locks z ke few locked =
      elim (add_locked_lem h1 z.valid el locks ke (omega (arith, z.same_elements, few)) locked) [
        | inl (e, (a, m, ek)) ↦
            subst (AddPost el) (sym e) (inl (refl, z, (a, (z.members a).0 m, ek)))
        | inr (h', e, d) ↦ subst (AddPost el) (sym e) (
            inr (
              refl,
              record {
                valid = d.valid;
                members = λ a. ground (arith, d.members a, z.members a);
                fresh = λ a m. d.fresh a ((z.members a).1 m);
                one_more = d.one_more ∙ ap suc z.same_elements;
              },
            ))
      ]

  -- htable_add, on a valid table with both locks of the bucket taken: it returns, and either answers
  -- false as the key is in the table, with the nodes as they were, or answers true and leaves a valid
  -- table with the node besides the ones that were there. A resize may go before, any of whose
  -- allocations may fail but the realloc that gives the new buckets back.
  pub htable_add-Added :
      (el : Node) (locks : Locks) (alloc : ResizeAlloc)
      → GivesBack alloc
      → IsKey el.key
      → h.element_count + 1 < 2 ^ 64
      → (locks.g_read && locks.stripe) ≡ true
      → Returns (AddPost el) (htable_add h el locks alloc)
  unfolding htable_add
  htable_add-Added el locks alloc gives ke few locked =
      let (h1, run, z) = htable_resize-Resized alloc gives in
      let same = kept-Resized h (Recounted-refl h) refl in
      elim (Bool-cases (leb h.resize_thres_elem_count h.element_count && locks.try_resize)) [
        | inl e ↦ (
          add_locked h1 el locks,
          rw (e, run, htable_add) refl,
          add-Resized h1 el locks z ke few locked,
        )
        | inr e ↦ (
          add_locked h el locks,
          rw (e, htable_add) refl,
          add-Resized h el locks same ke few locked,
        )
      ]
