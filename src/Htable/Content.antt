-- ===== src/Htable/Content.antt =====
-- The nodes of the table of server/htable.c, and htable_get.
use lwmsg.Base.{
  ℕ, zero, suc, ◌+◌, ◌-◌, ◌^◌, ◌<◌, List, [], ◌∷◌, ◌≡◌, ◌≢◌, ◌⊎◌, ◌↔◌, inl, inr, refl, sym, ap,
  subst, ◌∙◌, arith, length, get_or, set, get_or-set, bit_and-le, Bool-cases, ◌==◌, ==_iff,
  if◌then◌else◌,
}
use lwmsg.Htable.{Node, CmpFunc, Htable, bucket, bucket_index, fnv1a_32_hash}
use lwmsg.Htable.Bucket.{CmpLaws, Has, IsSorted}

abbrev pub total : List (List Node) → ℕ
total [] = 0
total (b ∷ bs) = length b + total bs

-- Every bucket is in the order of the comparator and holds nodes whose keys belong there.
pub record IsWired (cmp : CmpFunc) (IsKey : List ℕ → Type 0) (count : ℕ) (bs : List (List Node))
    : Type 0 where
  pub keys : (i : ℕ) (a : Node) → Has a (get_or bs i []) → IsKey a.key
  pub sorted : (i : ℕ) → IsSorted cmp (get_or bs i [])
  pub home : (i : ℕ) (a : Node) → Has a (get_or bs i []) → bucket_index count a.key ≡ i

pub record IsValid (IsKey : List ℕ → Type 0) (h : Htable) : Type 0 where
  pub laws : CmpLaws h.cmpfn IsKey
  pub wired : IsWired h.cmpfn IsKey h.bucket_count h.buckets
  pub sized : length h.buckets ≡ h.bucket_count
  pub power : (k : ℕ) × (k < 64) × (h.bucket_count ≡ 2 ^ k)
  pub factor : 0 < h.htable_pow2_resize_factor
  pub counted : h.element_count ≡ total h.buckets

-- The table holds the node.
abbrev pub Contains : List (List Node) → Node → Type 0
Contains bs a = (i : ℕ) × Has a (get_or bs i [])

pub bucket_index-lt : (count : ℕ) (k : List ℕ) → 0 < count → bucket_index count k < count
unfolding bucket_index
bucket_index-lt count k p = omega (arith, bit_and-le (fnv1a_32_hash k) (count - 1))

pub total-set :
    (bs : List (List Node)) (i : ℕ) (b : List Node)
    → i < length bs
    → total (set bs i b) + length (get_or bs i []) ≡ total bs + length b
total-set [] i b lt = absurd (omega arith)
total-set (c ∷ bs) zero b lt = omega arith
total-set (c ∷ bs) (suc i) b lt = omega (arith, total-set bs i b (omega arith))

pub pow-positive : (k : ℕ) → 0 < 2 ^ k
pow-positive zero = omega arith
pow-positive (suc k) = omega (arith, pow-positive k)

-- The nodes of bucket `j` once `b` is in bucket `i`.
pub Has-set :
    (bs : List (List Node)) (i j : ℕ) (b : List Node) (a : Node)
    → i < length bs
    → Has a (get_or (set bs i b) j []) ↔ (((i ≡ j) × Has a b) ⊎ ((i ≢ j) × Has a (get_or bs j [])))
Has-set bs i j b a lt = elim (Bool-cases (i == j)) [
  | inl e ↦
      let same = (==_iff i j).0 e in
      let now = get_or-set bs i j b [] lt ∙ ap (λ t. if t then b else get_or bs j []) e in
      (
        λ m. inl (same, subst (Has a) now m),
        λ m. elim m [ inl (e', m') ↦ subst (Has a) (sym now) m' | inr (ne, m') ↦ absurd (ne same) ],
      )
  | inr e ↦
      let differs : i ≢ j = λ e'. ground (arith, e, e') in
      let now = get_or-set bs i j b [] lt ∙ ap (λ t. if t then b else get_or bs j []) e in
      (
        λ m. inr (differs, subst (Has a) now m),
        λ m. elim m [
          | inl (e', m') ↦ absurd (differs e')
          | inr (ne, m') ↦ subst (Has a) (sym now) m'
        ],
      )
]

-- A node of the table stands in bucket `i` or in another.
abbrev pub Elsewhere : List (List Node) → ℕ → Node → Type 0
Elsewhere bs i a = (j : ℕ) × (i ≢ j) × Has a (get_or bs j [])

pub Contains-split :
    (bs : List (List Node)) (i : ℕ) (a : Node)
    → Contains bs a ↔ (Has a (get_or bs i []) ⊎ Elsewhere bs i a)
Contains-split bs i a = (
  λ (j, m). elim (Bool-cases (i == j)) [
    | inl e ↦ inl (subst (λ k. Has a (get_or bs k [])) (sym ((==_iff i j).0 e)) m)
    | inr e ↦ let differs : i ≢ j = λ e'. ground (arith, e, e') in inr (j, differs, m)
  ],
  λ m. elim m [ inl m' ↦ (i, m') | inr (j, ne, m') ↦ (j, m') ],
)

-- Once `b` is in bucket `i`, a node stands in `b` or in another bucket.
pub Contains-set :
    (bs : List (List Node)) (i : ℕ) (b : List Node) (a : Node)
    → i < length bs
    → Contains (set bs i b) a ↔ (Has a b ⊎ Elsewhere bs i a)
Contains-set bs i b a lt = (
  λ (j, m). elim ((Has-set bs i j b a lt).0 m) [
    | inl (e, m') ↦ inl m'
    | inr (ne, m') ↦ inr (j, ne, m')
  ],
  λ m. elim m [
    | inl m' ↦ (i, (Has-set bs i i b a lt).1 (inl (refl, m')))
    | inr (j, ne, m') ↦ (j, (Has-set bs i j b a lt).1 (inr (ne, m')))
  ],
)

pub set-IsSorted :
    (cmp : CmpFunc) (bs : List (List Node)) (i j : ℕ) (b : List Node)
    → i < length bs
    → IsSorted cmp b
    → IsSorted cmp (get_or bs j [])
    → IsSorted cmp (get_or (set bs i b) j [])
set-IsSorted cmp bs i j b lt s s' = elim (Bool-cases (i == j)) [
  | inl e ↦
      subst (IsSorted cmp)
        (sym (get_or-set bs i j b [] lt ∙ ap (λ t. if t then b else get_or bs j []) e)) s
  | inr e ↦
      subst (IsSorted cmp)
        (sym (get_or-set bs i j b [] lt ∙ ap (λ t. if t then b else get_or bs j []) e)) s'
]

-- A bucket of nodes that belong there may take its place.
pub set-IsWired :
    {cmp : CmpFunc} {IsKey : List ℕ → Type 0} (count : ℕ) (bs : List (List Node)) (i : ℕ)
    (b : List Node)
    → i < length bs
    → IsWired cmp IsKey count bs
    → IsSorted cmp b
    → ((a : Node) → Has a b → IsKey a.key × (bucket_index count a.key ≡ i))
    → IsWired cmp IsKey count (set bs i b)
set-IsWired {cmp} count bs i b lt w s fit = record {
  keys = λ j a m. elim ((Has-set bs i j b a lt).0 m) [
    | inl (e, m') ↦ (fit a m').0
    | inr (ne, m') ↦ w.keys j a m'
  ];
  sorted = λ j. set-IsSorted cmp bs i j b lt s (w.sorted j);
  home = λ j a m. elim ((Has-set bs i j b a lt).0 m) [
    | inl (e, m') ↦ (fit a m').1 ∙ e
    | inr (ne, m') ↦ w.home j a m'
  ];
}

module _ {IsKey : List ℕ → Type 0} (h : Htable) (v : IsValid IsKey h) where
  pub bucket_count-positive : 0 < h.bucket_count
  bucket_count-positive = let (k, lt, e) = v.power in omega (arith, e, pow-positive k)

  pub index-lt : (k : List ℕ) → bucket_index h.bucket_count k < length h.buckets
  index-lt k = omega (arith, v.sized, bucket_index-lt h.bucket_count k bucket_count-positive)

  -- A node with the key stands in the bucket of the key.
  pub Contains-home :
      (a : Node) (k : List ℕ)
      → Contains h.buckets a
      → a.key ≡ k
      → Has a (bucket h (bucket_index h.bucket_count k))
  Contains-home a k (i, m) e =
      subst (λ j. Has a (bucket h j))
        (sym (v.wired.home i a m) ∙ ap (λ t. bucket_index h.bucket_count t) e) m
