-- ===== src/MsgQueue/Fifo.antt =====
-- mpscq_enqueue and mpscq_dequeue of server/thrdmsg_mpscq.c against a list of messages.
use lwmsg.Base.{
  ℕ, suc, List, [], ◌∷◌, ◌++◌, ◌≡◌, ◌≢◌, inl, inr, refl, sym, ap, subst, ◌∙◌, arith, length,
}
use lwmsg.MsgQueue.{
  MsgqMode, mode_spsc, mode_mpsc, MsgQueue, set_next, set_prev, raise, lower, mpscq_enqueue,
  mpscq_dequeue, first_message, next_message, take_only, take_last,
}
use lwmsg.MsgQueue.Chain.{
  Linked, Chain, Chain-elsewhere, last, last-Linked, Linked-append, Chain-nonnull, Chain-end,
  Chain-shorten,
}

-- Between threads, the counter is the number of messages.
abbrev pub Counted : MsgqMode → ℕ → ℕ → Type 0
Counted mode_spsc eventfd n = Unit
Counted mode_mpsc eventfd n = eventfd ≡ n

-- The queue holds the messages `ps`, newest first.
pub record IsQueue (q : MsgQueue) (ps : List ℕ) : Type 0 where
  pub links : Chain q.at 0 q.head ps q.tail
  pub counted : Counted q.qmode q.eventfd (length ps)

raise-Counted : (mode : MsgqMode) (e n : ℕ) → Counted mode e n → Counted mode (raise mode e) (suc n)
raise-Counted mode_spsc e n c = tt
raise-Counted mode_mpsc e n c = omega (arith, c)

lower-Counted : (mode : MsgqMode) (e n : ℕ) → Counted mode e (suc n) → Counted mode (lower mode e) n
lower-Counted mode_spsc e n c = tt
lower-Counted mode_mpsc e n c = omega (arith, c)

-- mpscq_enqueue puts a message that is not in the queue in front of the others.
pub mpscq_enqueue-IsQueue :
    (q : MsgQueue) (ps : List ℕ) (msg : ℕ)
    → IsQueue q ps
    → msg ≢ 0
    → ¬ Linked msg ps
    → IsQueue (mpscq_enqueue q msg) (msg ∷ ps)
unfolding mpscq_enqueue
mpscq_enqueue-IsQueue q [] msg is nz fresh =
    let (e, t) = is.links in
    let run : mpscq_enqueue q msg ≡ first_message q msg = ground (arith, e, nz) in
    let links : Chain (first_message q msg).at 0 msg (msg ∷ []) msg =
      (refl, nz, ground arith, λ m. m, (ground arith, refl)) in
    subst (λ x. IsQueue x (msg ∷ [])) (sym run)
      record { links = links; counted = raise-Counted q.qmode q.eventfd 0 is.counted }
mpscq_enqueue-IsQueue q (p ∷ ps) msg is nz fresh =
    let (e, nzp, back, freshp, rest) = is.links in
    let at' = (next_message q msg).at in
    let run : mpscq_enqueue q msg ≡ next_message q msg = ground (arith, e, nz, nzp) in
    let apart : msg ≢ p = λ e'. fresh (inl e') in
    let same : (x : ℕ)
        → Linked x ps
        → ((at' x).next ≡ (q.at x).next) × ((at' x).prev ≡ (q.at x).prev) =
      λ x m.
        let not_msg : x ≢ msg = λ e'. fresh (inr (subst (λ y. Linked y ps) e' m)) in
        let not_head : x ≢ p = λ e'. freshp (subst (λ y. Linked y ps) e' m) in
        (ground (arith, not_msg, not_head, e), ground (arith, not_msg, not_head, e)) in
    let next_of_head : (at' p).next ≡ (q.at p).next = ground (arith, apart, e) in
    let links : Chain at' 0 msg (msg ∷ p ∷ ps) q.tail = (
      refl,
      nz,
      ground (arith, apart, e),
      fresh,
      (
        ground (arith, apart, e),
        nzp,
        ground (arith, apart, e),
        freshp,
        subst (λ x. Chain at' p x ps q.tail) (sym next_of_head)
            (Chain-elsewhere q.at at' p (q.at p).next ps q.tail same rest),
      ),
    ) in
    subst (λ x. IsQueue x (msg ∷ p ∷ ps)) (sym run)
      record {
        links = links;
        counted = raise-Counted q.qmode q.eventfd (suc (length ps)) is.counted;
      }

length-one_more : (ps : List ℕ) (p : ℕ) → length (ps ++ p ∷ []) ≡ suc (length ps)
length-one_more [] p = refl
length-one_more (x ∷ ps) p = ap suc (length-one_more ps p)

-- mpscq_dequeue of a queue that holds messages answers the oldest of them, and leaves the others in
-- their order, with a counter that is one lower.
pub mpscq_dequeue-IsQueue :
    (q : MsgQueue) (ps : List ℕ) (p : ℕ)
    → IsQueue q (ps ++ p ∷ [])
    → ((mpscq_dequeue q).0 ≡ p) × IsQueue (mpscq_dequeue q).1 ps
unfolding mpscq_dequeue
mpscq_dequeue-IsQueue q [] p is =
    let (e, nz, back, fresh, (n, t)) = is.links in
    let run : mpscq_dequeue q ≡ (q.tail, take_only q) =
      ground (arith, nz, t, ap (λ x. (q.at x).prev) t ∙ back) in
    (
      ap (λ x. x.0) run ∙ t,
      subst (λ x. IsQueue x.1 []) (sym run)
          record { links = (refl, refl); counted = lower-Counted q.qmode q.eventfd 0 is.counted },
    )
mpscq_dequeue-IsQueue q (r ∷ rs) p is =
    let (t, back) = Chain-end q.at 0 q.head r rs p q.tail is.links in
    let nonnull = Chain-nonnull q.at 0 q.head (r ∷ rs ++ p ∷ []) q.tail is.links in
    let among = λ (x : ℕ). (Linked-append x (r ∷ rs) (p ∷ [])).1 in
    let nz : p ≢ 0 = nonnull p (among p (inr (inl refl))) in
    let nz_last : last r rs ≢ 0 =
      nonnull (last r rs) (among (last r rs) (inl (last-Linked r rs))) in
    let prev_eq : (q.at q.tail).prev ≡ last r rs = ap (λ x. (q.at x).prev) t ∙ back in
    let run : mpscq_dequeue q ≡ (q.tail, take_last q) = ground (arith, nz, t, nz_last, prev_eq) in
    let links : Chain (take_last q).at 0 q.head (r ∷ rs) (take_last q).tail =
      subst (λ b. Chain (set_prev (set_next q.at b 0) q.tail 0) 0 q.head (r ∷ rs) b) (sym prev_eq)
        (subst
          (λ x. Chain (set_prev (set_next q.at (last r rs) 0) x 0) 0 q.head (r ∷ rs) (last r rs))
          (sym t) (Chain-shorten q.at 0 q.head r rs p q.tail is.links)) in
    (
      ap (λ x. x.0) run ∙ t,
      subst (λ x. IsQueue x.1 (r ∷ rs)) (sym run)
          record {
            links = links;
            counted =
                lower-Counted q.qmode q.eventfd (length (r ∷ rs))
                  (subst (Counted q.qmode q.eventfd) (length-one_more (r ∷ rs) p) is.counted);
          },
    )
