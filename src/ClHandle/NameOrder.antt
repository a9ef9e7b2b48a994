-- ===== src/ClHandle/NameOrder.antt =====
-- std_client_cmp of server/clhandle.c orders the user names, as the hash table asks of a comparator.
use lwmsg.Base.{
  ℕ, zero, suc, ◌<◌, ◌≡◌, refl, sym, ap, ◌∙◌, arith, List, [], ◌∷◌, length, Ordering,
  Ordering-cases, compare, All, inl, inr, min,
}
use Prim.Native.Nat.compare
use lwmsg.Htable.Bucket.{CmpLaws}
use lwmsg.ClHandle.{strncmp, std_client_cmp}

-- A name has no NUL in it.
abbrev pub IsName : List ℕ → Type 0
IsName name = All (λ x. 0 < x) name

-- The order of a dictionary.
abbrev pub lex : List ℕ → List ℕ → Ordering
lex [] [] = Ordering.eq
lex [] (y ∷ b) = Ordering.lt
lex (x ∷ a) [] = Ordering.gt
lex (x ∷ a) (y ∷ b) = elim (compare x y) [
  | Ordering.eq ↦ lex a b
  | Ordering.lt ↦ Ordering.lt
  | Ordering.gt ↦ Ordering.gt
]

min-zero_left : (n : ℕ) → min 0 n ≡ 0
min-zero_left n = omega arith

min-zero_right : (n : ℕ) → min n 0 ≡ 0
min-zero_right n = omega arith

min-suc : (m n : ℕ) → min (suc m) (suc n) ≡ suc (min m n)
min-suc m n = omega arith

-- std_client_cmp is the order of a dictionary on names.
pub cmp-lex : (a b : List ℕ) → IsName a → std_client_cmp a b ≡ lex a b
unfolding std_client_cmp strncmp
cmp-lex [] [] na = refl
cmp-lex [] (y ∷ b) na = rw (min-zero_left (suc (length b)), std_client_cmp, strncmp) ground arith
cmp-lex (x ∷ a) [] na = rw (min-zero_right (suc (length a)), std_client_cmp, strncmp) ground arith
cmp-lex (zero ∷ a) (y ∷ b) na = absurd (omega (arith, na.0))
cmp-lex (suc x ∷ a) (y ∷ b) na =
    rw (min-suc (length a) (length b), std_client_cmp, strncmp)
      (elim (Ordering-cases (compare (suc x) y)) [
        | inl e ↦ rw (e, lex) refl
        | inr (inl e) ↦
            rw (e, lex)
              (ap
                  (λ (t : Ordering). elim (strncmp (min (length a) (length b)) a b) [
                    | Ordering.eq ↦ t
                    | Ordering.lt ↦ Ordering.lt
                    | Ordering.gt ↦ Ordering.gt
                  ])
                  (compare.suc-suc (length a) (length b))
                ∙ cmp-lex a b na.1)
        | inr (inr e) ↦ rw (e, lex) refl
      ])

lex-reflexive : (a : List ℕ) → lex a a ≡ Ordering.eq
lex-reflexive [] = refl
lex-reflexive (x ∷ a) = ground (arith, lex-reflexive a)

lex-same : (a b : List ℕ) → lex a b ≡ Ordering.eq → a ≡ b
lex-same [] [] e = refl
lex-same [] (y ∷ b) e = ground arith
lex-same (x ∷ a) [] e = ground arith
lex-same (x ∷ a) (y ∷ b) e = ground (arith, lex-same a b)

lex-transitive :
    (a b c : List ℕ) → lex a b ≡ Ordering.lt → lex b c ≡ Ordering.lt → lex a c ≡ Ordering.lt
lex-transitive [] [] [] e f = e
lex-transitive [] (y ∷ b) [] e f = ground arith
lex-transitive [] b (z ∷ c) e f = refl
lex-transitive (x ∷ a) [] c e f = ground arith
lex-transitive (x ∷ a) (y ∷ b) [] e f = ground arith
lex-transitive (x ∷ a) (y ∷ b) (z ∷ c) e f = ground (arith, lex-transitive a b c)

lex-flipped : (a b : List ℕ) → lex a b ≡ Ordering.gt → lex b a ≡ Ordering.lt
lex-flipped [] [] e = ground arith
lex-flipped [] (y ∷ b) e = ground arith
lex-flipped (x ∷ a) [] e = refl
lex-flipped (x ∷ a) (y ∷ b) e = ground (arith, lex-flipped a b)

-- The user names in the order of std_client_cmp are keys that the hash table can use.
pub std_client_cmp-CmpLaws : CmpLaws std_client_cmp IsName
std_client_cmp-CmpLaws = record {
  same = λ a b na nb e. lex-same a b (sym (cmp-lex a b na) ∙ e);
  reflexive = λ a na. cmp-lex a a na ∙ lex-reflexive a;
  transitive = λ a b c na nb nc e f.
      cmp-lex a c na ∙ lex-transitive a b c (sym (cmp-lex a b na) ∙ e) (sym (cmp-lex b c nb) ∙ f);
  flipped = λ a b na nb e. cmp-lex b a nb ∙ lex-flipped a b (sym (cmp-lex a b na) ∙ e);
}
