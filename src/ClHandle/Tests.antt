-- ===== src/ClHandle/Tests.antt =====
-- Names and lists of clients.
use lwmsg.Base.{ℕ, ◌≡◌, ◌≢◌, ◌↔◌, refl, [], ◌∷◌, arith, inl, inr, Ordering}
use lwmsg.ClHandle.{list_remove, std_client_cmp, strncmp, node_copy_username, buf_toosmall}
use lwmsg.ClHandle.RegList.{InList, list_remove-InList}

-- "al" comes before "ali", and "b" after both.
name_order : std_client_cmp (97 ∷ 108 ∷ []) (97 ∷ 108 ∷ 105 ∷ []) ≡ Ordering.lt
unfolding std_client_cmp strncmp
name_order = refl

-- The NUL needs its place, too.
copy_two : (node_copy_username 5 (97 ∷ 108 ∷ []) (0 ∷ 0 ∷ []) 2).0 ≡ buf_toosmall
unfolding node_copy_username
copy_two = refl

abbrev third : ℕ
third = 3

list_remove-InList_example :
    InList third (list_remove (5 ∷ 3 ∷ 8 ∷ []) 8) ↔ (InList third (5 ∷ 3 ∷ 8 ∷ []) × (third ≢ 8))
list_remove-InList_example =
    list_remove-InList (5 ∷ 3 ∷ 8 ∷ []) 8 third
      (
        λ m. elim m [
          | inl e ↦ omega (arith, e)
          | inr (inl e) ↦ omega (arith, e)
          | inr (inr m') ↦ m'
        ],
        (λ m. elim m [ inl e ↦ omega (arith, e) | inr m' ↦ m' ], (λ m. m, tt)),
      )
      (omega arith)
