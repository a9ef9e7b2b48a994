-- ===== src/TimerHeap/Tests.antt =====
-- The timer heap with two clients, at small times.
use lwmsg.Base.{
  ℕ, zero, suc, ◌+◌, ◌*◌, ◌^◌, ◌≤◌, ◌<◌, ◌≡◌, ◌≢◌, refl, true, none, some, [], ◌∷◌, arith, Returns,
  ◌==◌, if◌then◌else◌,
}
use lwmsg.TimerHeap.{
  TimerHeap, Timespec, Client, slot, deadline, cl_timerheap_add, cl_timerheap_pop,
  cl_timerheap_remove, cl_timerheap_compute_root_timediff, swap, min_index, heapify_up,
  heapify_down, new_index, resize,
}
use lwmsg.TimerHeap.Slots.{nanos, key, Holds}
use lwmsg.TimerHeap.Order.{IsHeap, IsValid}
use lwmsg.TimerHeap.Unlink.{Removed, pop-Removed, remove-Removed}
use lwmsg.TimerHeap.Link.{Added, due, add-Added, root_timediff-on_time}

abbrev client : ℕ → ℕ → Client
client i sec = record {
  timerheap_index = some i;
  auth_deadline = record { tv_sec = sec; tv_nsec = 5 };
  cl_state = 2;
}

abbrev outside : Client
outside = record {
  timerheap_index = none;
  auth_deadline = record { tv_sec = 0; tv_nsec = 0 };
  cl_state = 2;
}

-- Clients 7 and 9, due at 10 and 12 seconds; the array is full.
abbrev two : TimerHeap
two = record {
  clients = 7 ∷ 9 ∷ [];
  num_clients = 2;
  num_slots = 2;
  cl = λ p. if p == 7 then client 0 10 else if p == 9 then client 1 12 else outside;
}

abbrev noon : Timespec
noon = record { tv_sec = 6; tv_nsec = 3 }

two-indexed : (i : ℕ) → i < 2 → (two.cl (slot two i)).timerheap_index ≡ some i
two-indexed zero p = refl
two-indexed (suc zero) p = refl
two-indexed (suc (suc i)) p = absurd (omega arith)

two-nonnull : (i : ℕ) → i < 2 → slot two i ≢ 0
two-nonnull zero p = omega arith
two-nonnull (suc zero) p = omega arith
two-nonnull (suc (suc i)) p = absurd (omega arith)

two-ordered : IsHeap two
two-ordered zero p q = absurd (omega arith)
two-ordered (suc zero) p q = omega arith
two-ordered (suc (suc c)) p q = absurd (omega arith)

two-IsValid : IsValid two
two-IsValid = record {
  wired = record {
    slots = refl;
    power = (1, omega arith, refl);
    small = omega arith;
    few = omega arith;
    fits = omega arith;
    indexed = two-indexed;
    nonnull = two-nonnull;
    normal = λ p. ground arith;
  };
  ordered = two-ordered;
}

not-held : ¬ Holds two 4
not-held (zero, p, e) = omega arith
not-held (suc zero, p, e) = omega arith
not-held (suc (suc i), p, e) = omega arith

-- The array grows, and the new client, due first, rises to the root.
add_first :
    (elim (cl_timerheap_add two 4 1 noon) [ none ↦ [] | some r ↦ r.1.clients ]) ≡ 4 ∷ 9 ∷ 7 ∷ 0 ∷ []
unfolding cl_timerheap_add resize heapify_up min_index swap
add_first = refl

pop_order :
    (elim (cl_timerheap_pop two) [ none ↦ [] | some r ↦ r.0 ∷ slot r.1 0 ∷ r.1.num_clients ∷ [] ])
    ≡ 7 ∷ 9 ∷ 1 ∷ []
unfolding cl_timerheap_pop heapify_down new_index min_index swap
pop_order = refl

add-Added_example :
    (h' : TimerHeap) × (cl_timerheap_add two 4 1 noon ≡ some (true, h'))
    × Added two 4 (due noon 1) h'
add-Added_example =
    add-Added two 4 1 noon two-IsValid (omega arith) (omega arith) not-held (omega arith)

pop-Removed_example :
    Returns
      (λ (p, h').
        (p ≡ slot two 0)
        × Removed two p h'
        × ((i : ℕ) → i < two.num_clients → nanos (two.cl p).auth_deadline ≤ key two i))
      (cl_timerheap_pop two)
pop-Removed_example = pop-Removed two two-IsValid (omega arith)

remove-Removed_example : Returns (Removed two 7) (cl_timerheap_remove two 7)
remove-Removed_example = remove-Removed two 7 two-IsValid (0, omega arith, refl)

root_timediff-on_time_example :
    (0 < 4000)
    × (((deadline two 0).tv_sec * 10 ^ 9 + (deadline two 0).tv_nsec)
        < (noon.tv_sec * 10 ^ 9 + noon.tv_nsec) + 4000 * 10 ^ 6 + 10 ^ 9)
    × ((i : ℕ)
        → i < two.num_clients
        → (noon.tv_sec * 10 ^ 9 + noon.tv_nsec) + 4000 * 10 ^ 6
          < ((deadline two i).tv_sec * 10 ^ 9 + (deadline two i).tv_nsec) + 10 ^ 9)
unfolding cl_timerheap_compute_root_timediff
root_timediff-on_time_example = root_timediff-on_time two 2 noon 4000 two-IsValid (omega arith) refl
