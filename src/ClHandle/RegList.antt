-- ===== src/ClHandle/RegList.antt =====
-- list_add and list_remove of server/clhandle.c.
use lwmsg.Base.{
  ℕ, [], ◌∷◌, ◌≡◌, ◌≢◌, ◌↔◌, ◌⊎◌, inl, inr, sym, subst, ◌∙◌, arith, ◌==◌, ==_iff, Bool-cases,
}
use lwmsg.ClHandle.{RegClientList, list_add, list_remove, remove_walk}

-- The client stands in the list.
abbrev pub InList : ℕ → RegClientList → Type 0
InList q [] = ⊥
InList q (c ∷ list) = (q ≡ c) ⊎ InList q list

-- No client stands in the list twice.
abbrev pub IsDistinct : RegClientList → Type 0
IsDistinct [] = Unit
IsDistinct (c ∷ list) = (¬ InList c list) × IsDistinct list

pub list_add-InList :
    (list : RegClientList) (cl q : ℕ) → InList q (list_add list cl) ↔ ((q ≡ cl) ⊎ InList q list)
unfolding list_add
list_add-InList [] cl q = (λ m. m, λ m. m)
list_add-InList (c ∷ list) cl q = (λ m. m, λ m. m)

pub walk-InList :
    (list : RegClientList) (cl q : ℕ)
    → IsDistinct list
    → InList q (remove_walk list cl) ↔ (InList q list × (q ≢ cl))
walk-InList [] cl q d = (λ m. absurd m, λ (m, ne). absurd m)
walk-InList (c ∷ list) cl q (fresh, d) = elim (Bool-cases (cl == c)) [
  | inl e ↦
      let same = (==_iff cl c).0 e in
      rw (e, remove_walk)
        (
          λ m. (inr m, λ e'. fresh (subst (λ x. InList x list) (e' ∙ same) m)),
          λ (m, ne). elim m [ inl e' ↦ absurd (ne (e' ∙ sym same)) | inr m' ↦ m' ],
        )
  | inr e ↦
      let differs : cl ≢ c = λ e'. ground (arith, e, e') in
      rw (e, remove_walk) (ground (arith, walk-InList list cl q d, differs))
]

pub walk-IsDistinct :
    (list : RegClientList) (cl : ℕ) → IsDistinct list → IsDistinct (remove_walk list cl)
walk-IsDistinct [] cl d = d
walk-IsDistinct (c ∷ list) cl (fresh, d) = elim (Bool-cases (cl == c)) [
  | inl e ↦ rw (e, remove_walk) d
  | inr e ↦
      rw (e, remove_walk) (λ m. fresh ((walk-InList list cl c d).0 m).0, walk-IsDistinct list cl d)
]

-- A client of the list, each of which stands there once, is there after list_remove exactly when it
-- is another than the one to remove, which is not NULL.
pub list_remove-InList :
    (list : RegClientList) (cl q : ℕ)
    → IsDistinct list
    → cl ≢ 0
    → InList q (list_remove list cl) ↔ (InList q list × (q ≢ cl))
unfolding list_remove
list_remove-InList list cl q d ne = ground (arith, ne, walk-InList list cl q d)
