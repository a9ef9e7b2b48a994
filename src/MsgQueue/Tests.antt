-- ===== src/MsgQueue/Tests.antt =====
-- A queue between threads with two messages.
use lwmsg.Base.{◌≡◌, refl, [], ◌∷◌, arith, inl, inr, ◌==◌, if◌then◌else◌}
use lwmsg.MsgQueue.{MsgQueue, mode_mpsc, mpscq_enqueue, mpscq_dequeue}
use lwmsg.MsgQueue.Fifo.{IsQueue, mpscq_enqueue-IsQueue, mpscq_dequeue-IsQueue}

abbrev two_messages : MsgQueue
two_messages = record {
  head = 4;
  tail = 6;
  eventfd = 2;
  qmode = mode_mpsc;
  at = λ p.
      if p == 4
      then record { next = 6; prev = 0; subject_name = 98 ∷ [] }
      else record { next = 0; prev = 4; subject_name = 97 ∷ [] };
  freed = [];
}

two_messages-IsQueue : IsQueue two_messages (4 ∷ 6 ∷ [])
two_messages-IsQueue = record {
  links = (
    refl,
    omega arith,
    refl,
    λ m. elim m [ inl e ↦ omega (arith, e) | inr m' ↦ m' ],
    (refl, omega arith, refl, λ m. m, (refl, refl)),
  );
  counted = refl;
}

mpscq_enqueue-IsQueue_example : IsQueue (mpscq_enqueue two_messages 9) (9 ∷ 4 ∷ 6 ∷ [])
mpscq_enqueue-IsQueue_example =
    mpscq_enqueue-IsQueue two_messages (4 ∷ 6 ∷ []) 9 two_messages-IsQueue (omega arith) (λ m.
      elim m [ inl e ↦ omega (arith, e) | inr (inl e) ↦ omega (arith, e) | inr (inr m') ↦ m' ])

mpscq_dequeue-IsQueue_example :
    ((mpscq_dequeue two_messages).0 ≡ 6) × IsQueue (mpscq_dequeue two_messages).1 (4 ∷ [])
mpscq_dequeue-IsQueue_example = mpscq_dequeue-IsQueue two_messages (4 ∷ []) 6 two_messages-IsQueue
