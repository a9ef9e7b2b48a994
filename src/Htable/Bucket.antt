-- ===== src/Htable/Bucket.antt =====
-- The walks along one bucket of server/htable.c, on buckets in the order of the comparator.
use lwmsg.Base.{
  ℕ, suc, List, [], ◌∷◌, ◌++◌, Option, none, some, ◌≡◌, ◌≢◌, ◌⊎◌, ◌↔◌, inl, inr, refl, sym, ap,
  subst, ◌∙◌, arith, length, Ordering, Ordering-cases, ◌>>=◌,
}
use lwmsg.Htable.{Node, CmpFunc, add_to_bucket, insert_moved, remove_from_bucket, find}

-- What the table asks of its comparator, on the keys that it is used with.
pub record CmpLaws (cmp : CmpFunc) (IsKey : List ℕ → Type 0) : Type 0 where
  pub same : (a b : List ℕ) → IsKey a → IsKey b → cmp a b ≡ Ordering.eq → a ≡ b
  pub reflexive : (a : List ℕ) → IsKey a → cmp a a ≡ Ordering.eq
  pub transitive :
      (a b c : List ℕ)
      → IsKey a
      → IsKey b
      → IsKey c
      → cmp a b ≡ Ordering.lt
      → cmp b c ≡ Ordering.lt
      → cmp a c ≡ Ordering.lt
  pub flipped : (a b : List ℕ) → IsKey a → IsKey b → cmp a b ≡ Ordering.gt → cmp b a ≡ Ordering.lt

-- The node stands in the chain.
abbrev pub Has : Node → List Node → Type 0
Has a [] = ⊥
Has a (b ∷ bs) = (a ≡ b) ⊎ Has a bs

-- Strictly increasing keys.
abbrev pub IsSorted : CmpFunc → List Node → Type 0
IsSorted cmp [] = Unit
IsSorted cmp (b ∷ bs) = ((a : Node) → Has a bs → cmp b.key a.key ≡ Ordering.lt) × IsSorted cmp bs

pub Has-append : (a : Node) (xs ys : List Node) → Has a (xs ++ ys) ↔ (Has a xs ⊎ Has a ys)
Has-append a [] ys = ground arith
Has-append a (x ∷ xs) ys = ground (arith, Has-append a xs ys)

-- A comparison is an equality, or a walk that looks for one goes on.
eq-or_later {ℓ} :
    {A : Type ℓ} (o : Ordering)
    → (o ≡ Ordering.eq)
      ⊎ ((o ≢ Ordering.eq)
          × ((here later : A) → (elim o [ Ordering.eq ↦ here | _ ↦ later ]) ≡ later))
eq-or_later Ordering.lt = inr (λ e. ground arith, λ x y. refl)
eq-or_later Ordering.eq = inl refl
eq-or_later Ordering.gt = inr (λ e. ground arith, λ x y. refl)

-- `b'` is the bucket `b` with the node `el` at its place.
pub record Inserted (cmp : CmpFunc) (el : Node) (b b' : List Node) : Type 0 where
  pub sorted : IsSorted cmp b'
  pub members : (a : Node) → Has a b' ↔ ((a ≡ el) ⊎ Has a b)
  pub fresh : (a : Node) → Has a b → a.key ≢ el.key
  pub longer : length b' ≡ suc (length b)
  pub moved : insert_moved cmp el b ≡ b'

-- `b'` is the bucket `b` without its node of the key `k`.
pub record Taken (cmp : CmpFunc) (k : List ℕ) (b b' : List Node) : Type 0 where
  pub sorted : IsSorted cmp b'
  pub members : (a : Node) → Has a b' ↔ (Has a b × (a.key ≢ k))
  pub shorter : suc (length b') ≡ length b

module _ (cmp : CmpFunc) (IsKey : List ℕ → Type 0) (laws : CmpLaws cmp IsKey) where
  below-≢ : (a b : List ℕ) → IsKey a → IsKey b → cmp a b ≡ Ordering.lt → b ≢ a
  below-≢ a b ka kb lt e = cc (lt, laws.reflexive a ka, ap (λ t. cmp a t) e)

  -- A key below the first of a bucket is below all.
  below_all :
      (k : List ℕ) (c : Node) (cs : List Node)
      → IsKey k
      → ((a : Node) → Has a (c ∷ cs) → IsKey a.key)
      → IsSorted cmp (c ∷ cs)
      → cmp k c.key ≡ Ordering.lt
      → (a : Node) → Has a (c ∷ cs)
      → cmp k a.key ≡ Ordering.lt
  below_all k c cs kk keys s lt a (inl e) = ap (λ t. cmp k t.key) e ∙ lt
  below_all k c cs kk keys s lt a (inr m) =
      laws.transitive k c.key a.key kk (keys c (inl refl)) (keys a (inr m)) lt (s.0 a m)

  -- The walk of htable_add meets the key or puts the node at its place.
  pub add_to_bucket_lem :
      (el : Node) (b : List Node)
      → IsKey el.key
      → ((a : Node) → Has a b → IsKey a.key)
      → IsSorted cmp b
      → ((add_to_bucket cmp el b ≡ none) × ((a : Node) × Has a b × (a.key ≡ el.key)))
        ⊎ ((b' : List Node) × (add_to_bucket cmp el b ≡ some b') × Inserted cmp el b b')
  unfolding add_to_bucket insert_moved
  add_to_bucket_lem el [] ke keys s = inr (
    el ∷ [],
    refl,
    record {
      sorted = (λ a m. absurd m, tt);
      members = λ a. (λ m. m, λ m. m);
      fresh = λ a m. absurd m;
      longer = refl;
      moved = refl;
    },
  )
  add_to_bucket_lem el (c ∷ cs) ke keys s = elim (Ordering-cases (cmp el.key c.key)) [
    | inl lt ↦
        let below = below_all el.key c cs ke keys s lt in
        inr (
          el ∷ c ∷ cs,
          rw (lt, add_to_bucket) refl,
          record {
            sorted = (below, s);
            members = λ a. (λ m. m, λ m. m);
            fresh = λ a m. below-≢ el.key a.key ke (keys a m) (below a m);
            longer = refl;
            moved = rw (lt, insert_moved) refl;
          },
        )
    | inr (inl eq) ↦ inl (
      rw (eq, add_to_bucket) refl,
      (c, inl refl, sym (laws.same el.key c.key ke (keys c (inl refl)) eq)),
    )
    | inr (inr gt) ↦ elim (add_to_bucket_lem el cs ke (λ a m. keys a (inr m)) s.1) [
      | inl (e, (a, m, ek)) ↦ inl (rw (gt, e, add_to_bucket) refl, (a, inr m, ek))
      | inr (b', e, ins) ↦ inr (
        c ∷ b',
        rw (gt, e, add_to_bucket) refl,
        record {
          sorted = (
            λ a m. elim ((ins.members a).0 m) [
              | inl ea ↦
                  ap (λ t. cmp c.key t.key) ea ∙ laws.flipped el.key c.key ke (keys c (inl refl)) gt
              | inr m' ↦ s.0 a m'
            ],
            ins.sorted,
          );
          members = λ a. ground (arith, ins.members a);
          fresh = λ a m ek. elim m [
            | inl ea ↦ absurd (
                cc (
                  gt,
                  laws.reflexive el.key ke,
                  ap (λ t. cmp el.key t) (sym ek ∙ ap (λ t. t.key) ea),
                ))
            | inr m' ↦ ins.fresh a m' ek
          ];
          longer = ap suc ins.longer;
          moved = rw (gt, insert_moved) (ap (◌∷◌ c) ins.moved);
        },
      )
    ]
  ]

  -- The walk of htable_get meets the node with the key, where there is one.
  pub find_lem :
      (k : List ℕ) (b : List Node)
      → IsKey k
      → ((a : Node) → Has a b → IsKey a.key)
      → ((find cmp k b ≡ none) × ((a : Node) → Has a b → a.key ≢ k))
        ⊎ ((a : Node) × (find cmp k b ≡ some a) × Has a b × (a.key ≡ k))
  unfolding find
  find_lem k [] kk keys = inl (refl, λ a m. absurd m)
  find_lem k (c ∷ cs) kk keys = elim (eq-or_later {A = Option Node} (cmp k c.key)) [
    | inl eq ↦
        inr (c, rw (eq, find) refl, inl refl, sym (laws.same k c.key kk (keys c (inl refl)) eq))
    | inr (ne, later) ↦ elim (find_lem k cs kk (λ a m. keys a (inr m))) [
      | inl (e, absent) ↦ inl (
        later (some c) (find cmp k cs) ∙ e,
        λ a m ek. elim m [
          | inl ea ↦
              absurd (ne (ap (λ t. cmp k t) (ap (λ t. t.key) (sym ea) ∙ ek) ∙ laws.reflexive k kk))
          | inr m' ↦ absent a m' ek
        ],
      )
      | inr (a, e, m, ek) ↦ inr (a, later (some c) (find cmp k cs) ∙ e, inr m, ek)
    ]
  ]

  Taken-head :
      (c : Node) (cs : List Node)
      → ((a : Node) → Has a (c ∷ cs) → IsKey a.key)
      → IsSorted cmp (c ∷ cs)
      → Taken cmp c.key (c ∷ cs) cs
  Taken-head c cs keys s = record {
    sorted = s.1;
    members = λ a. (
      λ m. (inr m, below-≢ c.key a.key (keys c (inl refl)) (keys a (inr m)) (s.0 a m)),
      λ (m, ne). elim m [ inl ea ↦ absurd (ne (ap (λ t. t.key) ea)) | inr m' ↦ m' ],
    );
    shorter = refl;
  }

  Taken-cons :
      (k : List ℕ) (c : Node) (cs cs' : List Node)
      → c.key ≢ k
      → IsSorted cmp (c ∷ cs)
      → Taken cmp k cs cs'
      → Taken cmp k (c ∷ cs) (c ∷ cs')
  Taken-cons k c cs cs' differs s t = record {
    sorted = (λ a m'. s.0 a ((t.members a).0 m').0, t.sorted);
    members = λ a. (
      λ m'. elim m' [
        | inl ea ↦ (inl ea, λ e'. differs (ap (λ x. x.key) (sym ea) ∙ e'))
        | inr m'' ↦ (inr ((t.members a).0 m'').0, ((t.members a).0 m'').1)
      ],
      λ (m', ne'). elim m' [ inl ea ↦ inl ea | inr m'' ↦ inr ((t.members a).1 (m'', ne')) ],
    );
    shorter = ap suc t.shorter;
  }

  -- A node that is unlinked from a chain.
  pub unlink-Taken :
      (kept rest : List Node) (c : Node)
      → ((a : Node) → Has a (kept ++ c ∷ rest) → IsKey a.key)
      → IsSorted cmp (kept ++ c ∷ rest)
      → Taken cmp c.key (kept ++ c ∷ rest) (kept ++ rest)
  unlink-Taken [] rest c keys s = Taken-head c rest keys s
  unlink-Taken (d ∷ kept) rest c keys s =
      let mc = (Has-append c kept (c ∷ rest)).1 (inr (inl refl)) in
      Taken-cons c.key d (kept ++ c ∷ rest) (kept ++ rest)
        (λ e. below-≢ d.key c.key (keys d (inl refl)) (keys c (inr mc)) (s.0 c mc) (sym e)) s
        (unlink-Taken kept rest c (λ a m. keys a (inr m)) s.1)

  -- The walk of htable_remove takes the node with the key out, where there is one.
  pub remove_from_bucket_lem :
      (k : List ℕ) (b : List Node)
      → IsKey k
      → ((a : Node) → Has a b → IsKey a.key)
      → IsSorted cmp b
      → ((remove_from_bucket cmp k b ≡ none) × ((a : Node) → Has a b → a.key ≢ k))
        ⊎ ((c : Node) × (b' : List Node) × (remove_from_bucket cmp k b ≡ some (c, b'))
            × Has c b
            × (c.key ≡ k)
            × Taken cmp k b b')
  unfolding remove_from_bucket
  remove_from_bucket_lem k [] kk keys s = inl (refl, λ a m. absurd m)
  remove_from_bucket_lem k (c ∷ cs) kk keys s =
      elim (eq-or_later {A = Option (Node × List Node)} (cmp k c.key)) [
        | inl eq ↦
            let ck = sym (laws.same k c.key kk (keys c (inl refl)) eq) in
            inr (
              c,
              cs,
              rw (eq, remove_from_bucket) refl,
              inl refl,
              ck,
              subst (λ x. Taken cmp x (c ∷ cs) cs) ck (Taken-head c cs keys s),
            )
        | inr (ne, later) ↦
            let differs : c.key ≢ k = λ e. ne (ap (λ t. cmp k t) e ∙ laws.reflexive k kk) in
            let on =
              later (some (c, cs)) (do r ← remove_from_bucket cmp k cs; some (r.0, c ∷ r.1)) in
            elim (remove_from_bucket_lem k cs kk (λ a m. keys a (inr m)) s.1) [
              | inl (e, absent) ↦ inl (
                on ∙ rw e refl,
                λ a m ek. elim m [
                  | inl ea ↦ absurd (differs (ap (λ t. t.key) (sym ea) ∙ ek))
                  | inr m' ↦ absent a m' ek
                ],
              )
              | inr (d, b', e, m, dk, t) ↦
                  inr (d, c ∷ b', on ∙ rw e refl, inr m, dk, Taken-cons k c cs b' differs s t)
            ]
      ]

  -- One node for a key.
  pub same_node :
      (b : List Node) (a c : Node)
      → ((a : Node) → Has a b → IsKey a.key)
      → IsSorted cmp b
      → Has a b
      → Has c b
      → a.key ≡ c.key
      → a ≡ c
  same_node [] a c keys s ma mc e = absurd ma
  same_node (d ∷ b) a c keys s (inl ea) (inl ec) e = ea ∙ sym ec
  same_node (d ∷ b) a c keys s (inl ea) (inr mc) e = absurd (
      below-≢ d.key c.key (keys d (inl refl)) (keys c (inr mc)) (s.0 c mc)
        (sym e ∙ ap (λ t. t.key) ea))
  same_node (d ∷ b) a c keys s (inr ma) (inl ec) e = absurd (
      below-≢ d.key a.key (keys d (inl refl)) (keys a (inr ma)) (s.0 a ma) (e ∙ ap (λ t. t.key) ec))
  same_node (d ∷ b) a c keys s (inr ma) (inr mc) e =
      same_node b a c (λ x m. keys x (inr m)) s.1 ma mc e
