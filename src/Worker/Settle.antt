-- ===== src/Worker/Settle.antt =====
-- How wt_handle_authentication of server/worker.c may leave a client and the worker.
use lwmsg.Base.{ℕ, ◌≡◌, ◌≢◌, ◌↔◌, inl, inr, refl, subst, ◌∙◌, arith, false}
use lwmsg.TimerHeap.{TimerHeap}
use lwmsg.TimerHeap.Slots.{Holds}
use lwmsg.Htable.NodeList.{
  intrusive_list_remove, intrusive_list_remove-InList, intrusive_list_remove-IsDistinct,
}
use lwmsg.ClHandle.RegList.{InList}
use lwmsg.Worker.{Worker, set_state, free_client, unlist_client}
use lwmsg.Worker.Safe.{IsSafe, set_state-IsValid}
use lwmsg.Worker.Release.{Without, Released, unlinked-out}

-- `w'` is `w` without the client `p` in its list and its heap; the others stay as they were.
pub record Leaves (w : Worker) (p : ℕ) (w' : Worker) : Type 0 where
  pub safe : IsSafe w'
  pub members : (q : ℕ) → InList q w'.preauth_list ↔ (InList q w.preauth_list × (q ≢ p))
  pub others_live : (q : ℕ) → q ≢ p → w'.live q ≡ w.live q
  pub unheld : ¬ Holds w'.clth p

-- The list and the heap without `p`, whose memory stays.
pub delisted :
    (w : Worker) (p : ℕ) (h' : TimerHeap)
    → IsSafe w
    → InList p w.preauth_list
    → Without w.clth p h'
    → Leaves w p (record w { clth = h'; preauth_list = intrusive_list_remove w.preauth_list p })
delisted w p h' s m out =
    let real = (s.listed p m).0 in
    let members = λ (q : ℕ). intrusive_list_remove-InList w.preauth_list p q s.distinct real in
    record {
      safe = record {
        valid = out.valid;
        distinct = intrusive_list_remove-IsDistinct w.preauth_list p s.distinct;
        held = λ q hq.
            let (old, ne) = (out.members q).0 hq in
            let (listed, state) = s.held q old in
            ((members q).1 (listed, ne), out.same_state q ∙ state);
        listed = λ q mq.
            let (old, ne) = (members q).0 mq in
            let (nonnull, live, state) = s.listed q old in
            (nonnull, live, ground (arith, out.same_state q, state));
        indexed = λ q mq.
            let (old, ne) = (members q).0 mq in
            elim (s.indexed q old) [
              | inl hq ↦ inl ((out.members q).1 (hq, ne))
              | inr e ↦ inr (out.same_index q (unlinked-out w.clth q s.valid e) ne ∙ e)
            ];
      };
      members = members;
      others_live = λ q ne. refl;
      unheld = λ h. ((out.members p).0 h).1 refl;
    }

module _ (w : Worker) (p : ℕ) (s : IsSafe w) (out : ¬ InList p w.preauth_list) where
  apart : {q : ℕ} → InList q w.preauth_list → q ≢ p
  apart m e = out (subst (λ c. InList c w.preauth_list) e m)

  -- The state and the memory of a client outside the list do not matter.
  pub outside_state : (st : ℕ) → IsSafe (set_state w p st)
  outside_state st = record {
    valid = set_state-IsValid w p st s.valid;
    distinct = s.distinct;
    held = λ q h. let (m, state) = s.held q h in (m, ground (arith, state, apart m));
    listed = λ q m.
        let (nonnull, live, state) = s.listed q m in
        (nonnull, live, ground (arith, state, apart m));
    indexed =
        λ q m. elim (s.indexed q m) [ inl h ↦ inl h | inr e ↦ inr (ground (arith, e, apart m)) ];
  }

  pub outside_gone : IsSafe (free_client w p)
  outside_gone = record {
    valid = s.valid;
    distinct = s.distinct;
    held = s.held;
    listed = λ q m.
        let (nonnull, live, state) = s.listed q m in
        (nonnull, ground (arith, live, apart m), state);
    indexed = s.indexed;
  }

  pub outside_free : p ≢ 0 → Leaves w p (unlist_client w p)
  outside_free real =
      let members = λ (q : ℕ). intrusive_list_remove-InList w.preauth_list p q s.distinct real in
      record {
        safe = record {
          valid = s.valid;
          distinct = intrusive_list_remove-IsDistinct w.preauth_list p s.distinct;
          held = λ q h. let (m, state) = s.held q h in ((members q).1 (m, apart m), state);
          listed = λ q m.
              let (old, ne) = (members q).0 m in
              let (nonnull, live, state) = s.listed q old in
              (nonnull, ground (arith, live, ne), state);
          indexed = λ q m. s.indexed q ((members q).0 m).0;
        };
        members = members;
        others_live = λ q ne. ground (arith, ne);
        unheld = λ h. out (s.held p h).0;
      }

-- The client is out of the list and the heap, and freed.
pub record Freed (p : ℕ) (w w' : Worker) : Type 0 where
  pub leaves : Leaves w p w'
  pub freed : w'.live p ≡ false

pub Released-Freed : {w : Worker} {p : ℕ} {w' : Worker} → Released w p w' → Freed p w w'
Released-Freed {w} {p} r = record {
  leaves = record {
    safe = r.safe;
    members = r.members;
    others_live = r.others_live;
    unheld = λ h. ((r.without.members p).0 h).1 refl;
  };
  freed = r.freed;
}
