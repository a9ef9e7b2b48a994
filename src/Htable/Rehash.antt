-- ===== src/Htable/Rehash.antt =====
-- The moves of htable_resize of server/htable.c: the nodes that go to their new buckets are the nodes
-- that were there.
use lwmsg.Base.{
  ℕ, zero, suc, ◌+◌, ◌≤◌, ◌<◌, List, [], ◌∷◌, ◌++◌, Bool, false, ◌≡◌, ◌≢◌, ◌⊎◌, ◌↔◌, inl, inr, refl,
  sym, ap, subst, ◌∙◌, arith, length, get_or, set, length-set, ==_iff, ◌==◌, if◌then◌else◌,
  get_or-set,
}
use lwmsg.Htable.{Node, CmpFunc, bucket_index, insert_moved, rehash_chain, rehash}
use lwmsg.Htable.Bucket.{
  CmpLaws, Has, Has-append, IsSorted, Inserted, Taken, add_to_bucket_lem, unlink-Taken,
}
use lwmsg.Htable.Content.{Contains, Has-set, set-IsSorted, total, total-set, bucket_index-lt}

same_or_not : (i j : ℕ) → (i ≡ j) ⊎ (i ≢ j)
same_or_not i j = ground arith

==-differ : (i j : ℕ) → i ≢ j → (i == j) ≡ false
==-differ i j ne = ground (arith, ne)

append-one :
    (kept : List Node) (c : Node) (rest : List Node) → kept ++ c ∷ rest ≡ (kept ++ c ∷ []) ++ rest
append-one [] c rest = refl
append-one (d ∷ kept) c rest = ap (◌∷◌ d) (append-one kept c rest)

module _ (cmp : CmpFunc) (IsKey : List ℕ → Type 0) (laws : CmpLaws cmp IsKey) where
  -- The buckets while nodes move: each in order, and no key in two of them.
  pub record IsMixed (bs : List (List Node)) : Type 0 where
    pub keys : (i : ℕ) (a : Node) → Has a (get_or bs i []) → IsKey a.key
    pub sorted : (i : ℕ) → IsSorted cmp (get_or bs i [])
    pub apart :
        (i j : ℕ) (a b : Node)
        → Has a (get_or bs i [])
        → Has b (get_or bs j [])
        → a.key ≡ b.key
        → i ≡ j

  abbrev pub Home : ℕ → List (List Node) → ℕ → Type 0
  Home count bs j = (a : Node) → Has a (get_or bs j []) → bucket_index count a.key ≡ j

  -- `bs'` has the nodes of `bs`, and what stood where it belongs stays where it belongs.
  pub record Moved (count : ℕ) (bs bs' : List (List Node)) : Type 0 where
    pub mixed : IsMixed bs'
    pub sized : length bs' ≡ length bs
    pub same_total : total bs' ≡ total bs
    pub members : (a : Node) → Contains bs' a ↔ Contains bs a
    pub homes : (j : ℕ) → Home count bs j → Home count bs' j

  Moved-refl : (count : ℕ) (bs : List (List Node)) → IsMixed bs → Moved count bs bs
  Moved-refl count bs m = record {
    mixed = m;
    sized = refl;
    same_total = refl;
    members = λ a. (λ c. c, λ c. c);
    homes = λ j h. h;
  }

  Moved-trans :
      (count : ℕ) (bs bs' bs'' : List (List Node))
      → Moved count bs bs'
      → Moved count bs' bs''
      → Moved count bs bs''
  Moved-trans count bs bs' bs'' m n = record {
    mixed = n.mixed;
    sized = n.sized ∙ m.sized;
    same_total = n.same_total ∙ m.same_total;
    members =
        λ a. (λ c. (m.members a).0 ((n.members a).0 c), λ c. (n.members a).1 ((m.members a).1 c));
    homes = λ j h. n.homes j (m.homes j h);
  }

  -- `src` leaves bucket `i`, whose chain is `kept ++ src ∷ rest`, for the bucket `d`.
  module _ (bs : List (List Node)) (i d : ℕ) (kept rest : List Node) (src : Node)
      (mixed : IsMixed bs) (differ : i ≢ d) (lti : i < length bs) (ltd : d < length bs)
      (chain : get_or bs i [] ≡ kept ++ src ∷ rest) where
    abbrev dest : List Node
    dest = insert_moved cmp src (get_or bs d [])

    abbrev step : List (List Node)
    step = set (set bs i (kept ++ rest)) d dest

    src-Has : Has src (get_or bs i [])
    src-Has = subst (Has src) (sym chain) ((Has-append src kept (src ∷ rest)).1 (inr (inl refl)))

    dest-Inserted : Inserted cmp src (get_or bs d []) dest
    dest-Inserted =
        elim (add_to_bucket_lem cmp IsKey laws src (get_or bs d []) (mixed.keys i src src-Has)
          (mixed.keys d) (mixed.sorted d)) [
            | inl (e, (a, m, ek)) ↦ absurd (differ (mixed.apart i d src a src-Has m (sym ek)))
            | inr (b', e, ins) ↦ subst (Inserted cmp src (get_or bs d [])) (sym ins.moved) ins
          ]

    src-Taken : Taken cmp src.key (get_or bs i []) (kept ++ rest)
    src-Taken =
        subst (λ b. Taken cmp src.key b (kept ++ rest)) (sym chain)
          (unlink-Taken cmp IsKey laws kept rest src
            (λ a m. mixed.keys i a (subst (Has a) (sym chain) m))
            (subst (IsSorted cmp) chain (mixed.sorted i)))

    lts : d < length (set bs i (kept ++ rest))
    lts = omega (arith, length-set bs i (kept ++ rest), ltd)

    -- The nodes of a bucket after the move.
    step-Has :
        (j : ℕ) (a : Node)
        → Has a (get_or step j [])
          ↔ (((a ≡ src) × (j ≡ d)) ⊎ (Has a (get_or bs j []) × (a.key ≢ src.key)))
    step-Has j a = (
      λ m. elim ((Has-set (set bs i (kept ++ rest)) d j dest a lts).0 m) [
        | inl (e, m') ↦ elim ((dest-Inserted.members a).0 m') [
          | inl ea ↦ inl (ea, sym e)
          | inr m'' ↦ inr (subst (λ k. Has a (get_or bs k [])) e m'', dest-Inserted.fresh a m'')
        ]
        | inr (ne, m') ↦ elim ((Has-set bs i j (kept ++ rest) a lti).0 m') [
          | inl (e, m'') ↦
              let (m3, nk) = (src-Taken.members a).0 m'' in
              inr (subst (λ k. Has a (get_or bs k [])) e m3, nk)
          | inr (ne', m'') ↦ inr (m'', λ ek. ne' (mixed.apart i j src a src-Has m'' (sym ek)))
        ]
      ],
      λ m. elim m [
        | inl (ea, e) ↦
            (Has-set (set bs i (kept ++ rest)) d j dest a lts).1
              (inl (sym e, (dest-Inserted.members a).1 (inl ea)))
        | inr (m', nk) ↦
            (Has-set (set bs i (kept ++ rest)) d j dest a lts).1 (elim (same_or_not d j) [
              | inl e ↦ inl (
                e,
                (dest-Inserted.members a).1 (inr (subst (λ k. Has a (get_or bs k [])) (sym e) m')),
              )
              | inr ne ↦ inr (
                ne,
                (Has-set bs i j (kept ++ rest) a lti).1 (elim (same_or_not i j) [
                  | inl e ↦ inl (
                    e,
                    (src-Taken.members a).1 (subst (λ k. Has a (get_or bs k [])) (sym e) m', nk),
                  )
                  | inr ne' ↦ inr (ne', m')
                ]),
              )
            ])
      ],
    )

    step-IsMixed : IsMixed step
    step-IsMixed = record {
      keys = λ j a m. elim ((step-Has j a).0 m) [
        | inl (ea, e) ↦ subst (λ x. IsKey x.key) (sym ea) (mixed.keys i src src-Has)
        | inr (m', nk) ↦ mixed.keys j a m'
      ];
      sorted = λ j.
          set-IsSorted cmp (set bs i (kept ++ rest)) d j dest lts dest-Inserted.sorted
            (set-IsSorted cmp bs i j (kept ++ rest) lti src-Taken.sorted (mixed.sorted j));
      apart = λ j k a b ma mb e. elim ((step-Has j a).0 ma) [
        | inl (ea, ej) ↦ elim ((step-Has k b).0 mb) [
          | inl (eb, ek) ↦ ej ∙ sym ek
          | inr (mb', nk) ↦ absurd (nk (sym e ∙ ap (λ x. x.key) ea))
        ]
        | inr (ma', nk) ↦ elim ((step-Has k b).0 mb) [
          | inl (eb, ek) ↦ absurd (nk (e ∙ ap (λ x. x.key) eb))
          | inr (mb', nk') ↦ mixed.apart j k a b ma' mb' e
        ]
      ];
    }

    -- A node of bucket `i` is the one that leaves or has another key.
    step-Contains : (a : Node) → Contains step a ↔ Contains bs a
    step-Contains a = (
      λ (j, m). elim ((step-Has j a).0 m) [
        | inl (ea, e) ↦ (i, subst (λ x. Has x (get_or bs i [])) (sym ea) src-Has)
        | inr (m', nk) ↦ (j, m')
      ],
      λ (j, m). elim (same_or_not i j) [
        | inl e ↦
            let in_chain = subst (Has a) (ap (λ k. get_or bs k []) (sym e) ∙ chain) m in
            elim ((Has-append a kept (src ∷ rest)).0 in_chain) [
              | inl m' ↦
                  let left = (Has-append a kept rest).1 (inl m') in
                  (j, (step-Has j a).1 (inr (m, ((src-Taken.members a).0 left).1)))
              | inr (inl ea) ↦ (d, (step-Has d a).1 (inl (ea, refl)))
              | inr (inr m') ↦
                  let left = (Has-append a kept rest).1 (inr m') in
                  (j, (step-Has j a).1 (inr (m, ((src-Taken.members a).0 left).1)))
            ]
        | inr ne ↦
            (j, (step-Has j a).1 (inr (m, λ ek. ne (mixed.apart i j src a src-Has m (sym ek)))))
      ],
    )

    step-total : total step ≡ total bs
    step-total =
        let here = get_or-set bs i d (kept ++ rest) [] lti in
        let other : get_or (set bs i (kept ++ rest)) d [] ≡ get_or bs d [] =
          here ∙ ground (arith, differ) in
        omega (
          arith,
          total-set bs i (kept ++ rest) lti,
          total-set (set bs i (kept ++ rest)) d dest lts,
          ap length other,
          dest-Inserted.longer,
          src-Taken.shorter,
        )

    step-Moved : (count : ℕ) → bucket_index count src.key ≡ d → Moved count bs step
    step-Moved count e = record {
      mixed = step-IsMixed;
      sized = length-set (set bs i (kept ++ rest)) d dest ∙ length-set bs i (kept ++ rest);
      same_total = step-total;
      members = step-Contains;
      homes = λ j h a m. elim ((step-Has j a).0 m) [
        | inl (ea, ej) ↦ ap (λ x. bucket_index count x.key) ea ∙ e ∙ sym ej
        | inr (m', nk) ↦ h a m'
      ];
    }

    -- What is left of the chain.
    step-chain : get_or step i [] ≡ kept ++ rest
    step-chain =
        get_or-set (set bs i (kept ++ rest)) d i dest [] lts
        ∙ ground (arith, differ, get_or-set bs i i (kept ++ rest) [] lti)

  rehash_chain-Moved :
      (count i : ℕ) (kept rest : List Node) (bs : List (List Node))
      → IsMixed bs
      → 0 < count
      → length bs ≡ count
      → i < count
      → get_or bs i [] ≡ kept ++ rest
      → ((a : Node) → Has a kept → bucket_index count a.key ≡ i)
      → Moved count bs (rehash_chain cmp count i kept rest bs)
        × Home count (rehash_chain cmp count i kept rest bs) i
  unfolding rehash_chain
  rehash_chain-Moved count i kept [] bs mixed pos len lt chain home = (
    Moved-refl count bs mixed,
    λ a m. elim ((Has-append a kept []).0 (subst (Has a) chain m)) [
      | inl m' ↦ home a m'
      | inr m' ↦ absurd m'
    ],
  )
  rehash_chain-Moved count i kept (src ∷ rest) bs mixed pos len lt chain home =
      let d = bucket_index count src.key in
      let stay = rehash_chain cmp count i (kept ++ src ∷ []) rest bs in
      let next = set (set bs i (kept ++ rest)) d (insert_moved cmp src (get_or bs d [])) in
      let move = rehash_chain cmp count i kept rest next in
      let goal = λ (test : Bool).
        Moved count bs (if test then stay else move) × Home count (if test then stay else move) i in
      elim (same_or_not i d) [
        | inl e ↦ subst goal (sym ((==_iff i d).1 e)) (
            rehash_chain-Moved count i (kept ++ src ∷ []) rest bs mixed pos len lt
              (chain ∙ append-one kept src rest)
              (λ a m. elim ((Has-append a kept (src ∷ [])).0 m) [
                | inl m' ↦ home a m'
                | inr (inl ea) ↦ ap (λ x. bucket_index count x.key) ea ∙ sym e
                | inr (inr m') ↦ absurd m'
              ]))
        | inr ne ↦
            let lti : i < length bs = omega (arith, len, lt) in
            let ltd : d < length bs = omega (arith, len, bucket_index-lt count src.key pos) in
            let one = step-Moved bs i d kept rest src mixed ne lti ltd chain count refl in
            let more =
              rehash_chain-Moved count i kept rest next one.mixed pos (one.sized ∙ len) lt
                (step-chain bs i d kept rest src mixed ne lti ltd chain) home in
            subst goal (sym (==-differ i d ne)) (Moved-trans count bs next move one more.0, more.1)
      ]

  -- After `n` buckets from `i`, all buckets before have the nodes that belong there.
  pub rehash-Moved :
      (count n i : ℕ) (bs : List (List Node))
      → IsMixed bs
      → 0 < count
      → length bs ≡ count
      → i + n ≤ count
      → ((j : ℕ) → j < i → Home count bs j)
      → Moved count bs (rehash cmp count n i bs)
        × ((j : ℕ) → j < i + n → Home count (rehash cmp count n i bs) j)
  unfolding rehash
  rehash-Moved count zero i bs mixed pos len le home =
      (Moved-refl count bs mixed, λ j lt. home j (omega (arith, lt)))
  rehash-Moved count (suc n) i bs mixed pos len le home =
      let bs' = rehash_chain cmp count i [] (get_or bs i []) bs in
      let (one, here) =
        rehash_chain-Moved count i [] (get_or bs i []) bs mixed pos len (omega (arith, le)) refl
          (λ a m. absurd m) in
      let (more, homes) =
        rehash-Moved count n (i + 1) bs' one.mixed pos (one.sized ∙ len) (omega (arith, le))
          (λ j lt. elim (same_or_not i j) [
            | inl e ↦ subst (Home count bs') e here
            | inr ne ↦ one.homes j (home j (omega (arith, lt, ne)))
          ]) in
      (
        Moved-trans count bs bs' (rehash cmp count n (i + 1) bs') one more,
        λ j lt. homes j (omega (arith, lt)),
      )
