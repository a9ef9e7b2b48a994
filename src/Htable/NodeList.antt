-- ===== src/Htable/NodeList.antt =====
-- The intrusive list of server/htable.c: the nodes from the dummy node's `next` on. A node is known
-- by its address, 0 is NULL.
use lwmsg.Base.{ℕ, List, [], ◌∷◌, ◌≡◌, ◌≢◌, ◌↔◌, ◌⊎◌, arith, ◌==◌, if◌then◌else◌}
use lwmsg.ClHandle.{remove_walk}
use lwmsg.ClHandle.RegList.{InList, IsDistinct, walk-InList, walk-IsDistinct}

unfoldable pub intrusive_list_create : List ℕ
intrusive_list_create = []

unfoldable pub intrusive_list_add : List ℕ → ℕ → List ℕ
intrusive_list_add [] nd = nd ∷ []
intrusive_list_add (next ∷ rest) nd = nd ∷ next ∷ rest

unfoldable pub intrusive_list_remove : List ℕ → ℕ → List ℕ
intrusive_list_remove list nd = if nd == 0 then list else remove_walk list nd

pub intrusive_list_add-InList :
    (list : List ℕ) (nd q : ℕ) → InList q (intrusive_list_add list nd) ↔ ((q ≡ nd) ⊎ InList q list)
unfolding intrusive_list_add
intrusive_list_add-InList [] nd q = (λ m. m, λ m. m)
intrusive_list_add-InList (c ∷ list) nd q = (λ m. m, λ m. m)

pub intrusive_list_add-IsDistinct :
    (list : List ℕ) (nd : ℕ)
    → ¬ InList nd list
    → IsDistinct list
    → IsDistinct (intrusive_list_add list nd)
unfolding intrusive_list_add
intrusive_list_add-IsDistinct [] nd out d = (out, d)
intrusive_list_add-IsDistinct (c ∷ list) nd out d = (out, d)

pub intrusive_list_remove-InList :
    (list : List ℕ) (nd q : ℕ)
    → IsDistinct list
    → nd ≢ 0
    → InList q (intrusive_list_remove list nd) ↔ (InList q list × (q ≢ nd))
unfolding intrusive_list_remove
intrusive_list_remove-InList list nd q d real = ground (arith, real, walk-InList list nd q d)

pub intrusive_list_remove-IsDistinct :
    (list : List ℕ) (nd : ℕ) → IsDistinct list → IsDistinct (intrusive_list_remove list nd)
unfolding intrusive_list_remove
intrusive_list_remove-IsDistinct list nd d = ground (arith, d, walk-IsDistinct list nd d)
