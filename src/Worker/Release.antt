-- ===== src/Worker/Release.antt =====
-- cleanup_std_client of server/worker.c.
use lwmsg.Base.{ℕ, ◌≤◌, ◌≡◌, ◌≢◌, ◌↔◌, inl, inr, refl, ap, subst, ◌∙◌, arith, false, none, Returns}
use lwmsg.TimerHeap.{TimerHeap, cl_timerheap_remove}
use lwmsg.TimerHeap.Slots.{Holds}
use lwmsg.TimerHeap.Order.{IsValid}
use lwmsg.TimerHeap.Unlink.{Removed, remove-Removed, remove-unlinked}
use lwmsg.ClHandle.RegList.{InList}
use lwmsg.Htable.NodeList.{intrusive_list_remove-InList, intrusive_list_remove-IsDistinct}
use lwmsg.Worker.{Worker, unlist_client, cleanup_std_client}
use lwmsg.Worker.Safe.{IsSafe}

-- `h'` is a heap of the clients of `h` but `p`, with the states and deadlines that they had.
pub record Without (h : TimerHeap) (p : ℕ) (h' : TimerHeap) : Type 0 where
  pub valid : IsValid h'
  pub count : h'.num_clients ≤ h.num_clients
  pub members : (q : ℕ) → Holds h' q ↔ (Holds h q × (q ≢ p))
  pub unlinked : (h'.cl p).timerheap_index ≡ none
  pub same_state : (q : ℕ) → (h'.cl q).cl_state ≡ (h.cl q).cl_state
  pub same_deadline : (q : ℕ) → (h'.cl q).auth_deadline ≡ (h.cl q).auth_deadline
  pub same_index :
      (q : ℕ) → ¬ Holds h q → q ≢ p → (h'.cl q).timerheap_index ≡ (h.cl q).timerheap_index

pub Removed-Without : {h : TimerHeap} {p : ℕ} {h' : TimerHeap} → Removed h p h' → Without h p h'
Removed-Without r = record {
  valid = r.valid;
  count = omega (arith, r.count);
  members = r.members;
  unlinked = r.unlinked;
  same_state = r.same_state;
  same_deadline = r.same_deadline;
  same_index = r.same_index;
}

-- A client without an index is not in the heap.
pub unlinked-out :
    (h : TimerHeap) (p : ℕ) → IsValid h → (h.cl p).timerheap_index ≡ none → ¬ Holds h p
unlinked-out h p v e (i, lt, at) =
    absurd (ground (arith, v.wired.indexed i lt, ap (λ q. (h.cl q).timerheap_index) at, e))

unlinked-Without :
    (h : TimerHeap) (p : ℕ) → IsValid h → (h.cl p).timerheap_index ≡ none → Without h p h
unlinked-Without h p v e = record {
  valid = v;
  count = omega arith;
  members = λ q. (λ m. (m, λ q_p. unlinked-out h p v e (subst (Holds h) q_p m)), λ (m, ne). m);
  unlinked = e;
  same_state = λ q. refl;
  same_deadline = λ q. refl;
  same_index = λ q out ne. refl;
}

-- `w'` is `w` after the client `p` is released.
pub record Released (w : Worker) (p : ℕ) (w' : Worker) : Type 0 where
  pub safe : IsSafe w'
  pub members : (q : ℕ) → InList q w'.preauth_list ↔ (InList q w.preauth_list × (q ≢ p))
  pub freed : w'.live p ≡ false
  pub others_live : (q : ℕ) → q ≢ p → w'.live q ≡ w.live q
  pub without : Without w.clth p w'.clth
  pub same_responses : w'.responses ≡ w.responses

-- A listed client leaves the list and its memory once it is out of the heap.
pub unlist-Released :
    (w : Worker) (p : ℕ) (h' : TimerHeap)
    → IsSafe w
    → InList p w.preauth_list
    → Without w.clth p h'
    → Released w p (unlist_client (record w { clth = h' }) p)
unlist-Released w p h' s m out =
    let real = (s.listed p m).0 in
    let members = λ (q : ℕ). intrusive_list_remove-InList w.preauth_list p q s.distinct real in
    record {
      safe = record {
        valid = out.valid;
        distinct = intrusive_list_remove-IsDistinct w.preauth_list p s.distinct;
        held = λ q hq.
            let (old, ne) = (out.members q).0 hq in
            let (listed, state) = s.held q old in
            ((members q).1 (listed, ne), out.same_state q ∙ state);
        listed = λ q mq.
            let (old, ne) = (members q).0 mq in
            let (nonnull, live, state) = s.listed q old in
            (nonnull, ground (arith, live, ne), ground (arith, out.same_state q, state));
        indexed = λ q mq.
            let (old, ne) = (members q).0 mq in
            elim (s.indexed q old) [
              | inl hq ↦ inl ((out.members q).1 (hq, ne))
              | inr e ↦ inr (out.same_index q (unlinked-out w.clth q s.valid e) ne ∙ e)
            ];
      };
      members = members;
      freed = ground arith;
      others_live = λ q ne. ground (arith, ne);
      without = out;
      same_responses = refl;
    }

-- cl_timerheap_remove takes a listed client out of the heap, or finds it out of it.
pub remove-Without :
    (w : Worker) (p : ℕ)
    → IsSafe w
    → InList p w.preauth_list
    → Returns (Without w.clth p) (cl_timerheap_remove w.clth p)
remove-Without w p s m = elim (s.indexed p m) [
  | inl hp ↦ let (h', e, r) = remove-Removed w.clth p s.valid hp in (h', e, Removed-Without r)
  | inr e ↦ (w.clth, remove-unlinked w.clth p e, unlinked-Without w.clth p s.valid e)
]

-- In a safe worker, cleanup_std_client of a client of the list of those to authenticate takes it
-- out of the timer heap and of the list, and frees it; the worker stays safe, and all other
-- clients stay as they were.
pub cleanup-Released :
    (w : Worker) (p : ℕ)
    → IsSafe w
    → InList p w.preauth_list
    → Returns (Released w p) (cleanup_std_client w p)
unfolding cleanup_std_client
cleanup-Released w p s m = elim (s.listed p m).2 [
  | inl e ↦
      let index : (w.clth.cl p).timerheap_index ≡ none = elim (s.indexed p m) [
        | inl hp ↦ absurd (omega (arith, e, (s.held p hp).1))
        | inr none_yet ↦ none_yet
      ] in
      (
        unlist_client w p,
        rw (e, cleanup_std_client) refl,
        unlist-Released w p w.clth s m (unlinked-Without w.clth p s.valid index),
      )
  | inr e ↦
      let (h', run, out) = remove-Without w p s m in
      (
        unlist_client (record w { clth = h' }) p,
        rw (e, run, cleanup_std_client) refl,
        unlist-Released w p h' s m out,
      )
]
