-- ===== src/MsgQueue/Chain.antt =====
-- The links of the message queue of server/thrdmsg_mpscq.c.
use lwmsg.Base.{ℕ, List, [], ◌∷◌, ◌++◌, ◌≡◌, ◌≢◌, ◌↔◌, ◌⊎◌, inl, inr, refl, sym, subst, ◌∙◌, arith}
use lwmsg.MsgQueue.{MsgNode, set_next, set_prev}

-- The pointer stands among the nodes.
abbrev pub Linked : ℕ → List ℕ → Type 0
Linked q [] = ⊥
Linked q (p ∷ ps) = (q ≡ p) ⊎ Linked q ps

-- From `first`, with the node `before` in front, the links give the nodes `ps` in turn and end
-- before `tail`, the last of them.
abbrev pub Chain : (ℕ → MsgNode) → ℕ → ℕ → List ℕ → ℕ → Type 0
Chain at before first [] tail = (first ≡ 0) × (tail ≡ before)
Chain at before first (p ∷ ps) tail =
    (first ≡ p)
    × (p ≢ 0)
    × ((at p).prev ≡ before)
    × (¬ Linked p ps)
    × Chain at p (at p).next ps tail

-- A chain does not depend on the memory elsewhere.
pub Chain-elsewhere :
    (at at' : ℕ → MsgNode) (before first : ℕ) (ps : List ℕ) (tail : ℕ)
    → ((q : ℕ) → Linked q ps → ((at' q).next ≡ (at q).next) × ((at' q).prev ≡ (at q).prev))
    → Chain at before first ps tail
    → Chain at' before first ps tail
Chain-elsewhere at at' before first [] tail same c = c
Chain-elsewhere at at' before first (p ∷ ps) tail same (e, nz, back, fresh, rest) =
    let (n, b) = same p (inl refl) in
    (
      e,
      nz,
      b ∙ back,
      fresh,
      subst (λ x. Chain at' p x ps tail) (sym n)
          (Chain-elsewhere at at' p (at p).next ps tail (λ q m. same q (inr m)) rest),
    )

-- The last of the nodes.
abbrev pub last : ℕ → List ℕ → ℕ
last p [] = p
last p (q ∷ ps) = last q ps

pub last-Linked : (p : ℕ) (ps : List ℕ) → Linked (last p ps) (p ∷ ps)
last-Linked p [] = inl refl
last-Linked p (q ∷ ps) = inr (last-Linked q ps)

pub Linked-append : (q : ℕ) (xs ys : List ℕ) → Linked q (xs ++ ys) ↔ (Linked q xs ⊎ Linked q ys)
Linked-append q [] ys = (λ m. inr m, λ m. elim m [ inl m' ↦ absurd m' | inr m' ↦ m' ])
Linked-append q (x ∷ xs) ys = ground (arith, Linked-append q xs ys)

-- The end of a chain: its tail, and what its tail points back to.
pub Chain-end :
    (at : ℕ → MsgNode) (before first : ℕ) (r : ℕ) (rs : List ℕ) (p tail : ℕ)
    → Chain at before first (r ∷ rs ++ p ∷ []) tail
    → (tail ≡ p) × ((at p).prev ≡ last r rs)
Chain-end at before first r [] p tail (e, nz, back, fresh, (e', nz', back', fresh', (f, t))) =
    (t, back')
Chain-end at before first r (s ∷ rs) p tail (e, nz, back, fresh, rest) =
    Chain-end at r (at r).next s rs p tail rest

-- The chain without its last node, once the node before has NULL for `next`.
pub Chain-shorten :
    (at : ℕ → MsgNode) (before first : ℕ) (r : ℕ) (rs : List ℕ) (p tail : ℕ)
    → Chain at before first (r ∷ rs ++ p ∷ []) tail
    → Chain (set_prev (set_next at (last r rs) 0) p 0) before first (r ∷ rs) (last r rs)
Chain-shorten at before first r [] p tail (e, nz, back, fresh, rest) =
    let apart : r ≢ p = λ e'. fresh (inl e') in
    (e, nz, ground (arith, back, apart), λ m. m, (ground (arith, apart), refl))
Chain-shorten at before first r (s ∷ rs) p tail (e, nz, back, fresh, rest) =
    let at' = set_prev (set_next at (last s rs) 0) p 0 in
    let in_rest = λ (x : ℕ). (Linked-append x (s ∷ rs) (p ∷ [])).1 in
    let apart : r ≢ p = λ e'. fresh (in_rest r (inr (inl e'))) in
    let inner : r ≢ last s rs =
      λ e'. fresh (in_rest r (inl (subst (λ x. Linked x (s ∷ rs)) (sym e') (last-Linked s rs)))) in
    let kept : (at' r).next ≡ (at r).next = ground (arith, apart, inner) in
    (
      e,
      nz,
      ground (arith, back, apart, inner),
      λ m. fresh (in_rest r (inl m)),
      subst (λ x. Chain at' r x (s ∷ rs) (last s rs)) (sym kept)
          (Chain-shorten at r (at r).next s rs p tail rest),
    )

pub Chain-nonnull :
    (at : ℕ → MsgNode) (before first : ℕ) (ps : List ℕ) (tail : ℕ)
    → Chain at before first ps tail
    → (p : ℕ) → Linked p ps
    → p ≢ 0
Chain-nonnull at before first [] tail c p m = absurd m
Chain-nonnull at before first (q ∷ ps) tail (e, nz, back, fresh, rest) p (inl e') =
    λ z. nz (sym e' ∙ z)
Chain-nonnull at before first (q ∷ ps) tail (e, nz, back, fresh, rest) p (inr m) =
    Chain-nonnull at q (at q).next ps tail rest p m
