-- ===== src/CmdParse/Agree.antt =====
-- The two functions of common/cmdparse.c cut a line at the same places.
use lwmsg.Base.{
  ℕ, zero, suc, ◌+◌, ◌≡◌, ◌⊎◌, inl, inr, refl, sym, ap, ◌∙◌, arith, List, [], ◌∷◌, ◌++◌, true,
  false, Bool-cases, ◌==◌,
}
use lwmsg.CmdParse.{
  is_blank, is_quote, quote, skip_blanks, token, token_end, past, cmdparse_tokenize,
  cmdparse_rest_after_tokens,
}

skip-go : (c : ℕ) (p : List ℕ) → is_blank c ≡ true → skip_blanks (c ∷ p) ≡ skip_blanks p
unfolding skip_blanks
skip-go c p e = rw (e, skip_blanks) refl

skip-stop : (c : ℕ) (p : List ℕ) → is_blank c ≡ false → skip_blanks (c ∷ p) ≡ c ∷ p
unfolding skip_blanks
skip-stop c p e = rw (e, skip_blanks) refl

end-stop : (c : ℕ) (p : List ℕ) → is_blank c ≡ true → token_end is_blank (c ∷ p) ≡ c ∷ p
unfolding token_end
end-stop c p e = rw (e, token_end) refl

end-go :
    (c : ℕ) (p : List ℕ) → is_blank c ≡ false → token_end is_blank (c ∷ p) ≡ token_end is_blank p
unfolding token_end
end-go c p e = rw (e, token_end) refl

skip_twice : (p : List ℕ) → skip_blanks (skip_blanks p) ≡ skip_blanks p
unfolding skip_blanks
skip_twice [] = refl
skip_twice (c ∷ p) = elim (Bool-cases (is_blank c)) [
  | inl e ↦ ap skip_blanks (skip-go c p e) ∙ skip_twice p ∙ sym (skip-go c p e)
  | inr e ↦ ap skip_blanks (skip-stop c p e)
]

-- The tokens of a line do not depend on the blanks in front.
tokenize-skip : (p : List ℕ) (n : ℕ) → cmdparse_tokenize (skip_blanks p) n ≡ cmdparse_tokenize p n
unfolding cmdparse_tokenize
tokenize-skip p zero = refl
tokenize-skip p (suc n) = rw (skip_twice p, cmdparse_tokenize) refl

-- The blank that ends a word is one of those in front of the next.
skip-past_word :
    (p : List ℕ) → skip_blanks (past (token_end is_blank p)) ≡ skip_blanks (token_end is_blank p)
unfolding skip_blanks token_end
skip-past_word [] = refl
skip-past_word (c ∷ p) = elim (Bool-cases (is_blank c)) [
  | inl e ↦
      ap (λ x. skip_blanks (past x)) (end-stop c p e)
      ∙ sym (skip-go c p e)
      ∙ ap skip_blanks (sym (end-stop c p e))
  | inr e ↦
      ap (λ x. skip_blanks (past x)) (end-go c p e)
      ∙ skip-past_word p
      ∙ ap skip_blanks (sym (end-go c p e))
]

tokenize-past_word :
    (p : List ℕ) (n : ℕ)
    → cmdparse_tokenize (past (token_end is_blank p)) n ≡ cmdparse_tokenize (token_end is_blank p) n
tokenize-past_word p n =
    sym (tokenize-skip (past (token_end is_blank p)) n)
    ∙ ap (λ x. cmdparse_tokenize x n) (skip-past_word p)
    ∙ tokenize-skip (token_end is_blank p) n

-- One round of the loop, by what stands behind the blanks.
module _ (line : List ℕ) (c : ℕ) (p : List ℕ) (n : ℕ) (e : skip_blanks line ≡ c ∷ p) where
  tokenize-quoted :
      (c == quote) ≡ true
      → cmdparse_tokenize line (suc n)
        ≡ token is_quote p ∷ cmdparse_tokenize (past (token_end is_quote p)) n
  unfolding cmdparse_tokenize token
  tokenize-quoted q = rw (e, cmdparse_tokenize) (rw q refl)

  tokenize-word :
      (c == quote) ≡ false
      → cmdparse_tokenize line (suc n)
        ≡ token is_blank (c ∷ p) ∷ cmdparse_tokenize (past (token_end is_blank (c ∷ p))) n
  unfolding cmdparse_tokenize token
  tokenize-word q = rw (e, cmdparse_tokenize) (rw q refl)

  rest-quoted :
      (c == quote) ≡ true
      → cmdparse_rest_after_tokens line (suc n)
        ≡ cmdparse_rest_after_tokens (past (token_end is_quote p)) n
  unfolding cmdparse_rest_after_tokens
  rest-quoted q = rw (e, cmdparse_rest_after_tokens) (rw q refl)

  rest-word :
      (c == quote) ≡ false
      → cmdparse_rest_after_tokens line (suc n)
        ≡ cmdparse_rest_after_tokens (token_end is_blank (c ∷ p)) n
  unfolding cmdparse_rest_after_tokens
  rest-word q = rw (e, cmdparse_rest_after_tokens) (rw q refl)

tokenize-nil : (line : List ℕ) (n : ℕ) → skip_blanks line ≡ [] → cmdparse_tokenize line n ≡ []
unfolding cmdparse_tokenize
tokenize-nil line zero e = refl
tokenize-nil line (suc n) e = rw (e, cmdparse_tokenize) refl

rest-nil : (line : List ℕ) (n : ℕ) → skip_blanks line ≡ [] → cmdparse_rest_after_tokens line n ≡ []
unfolding cmdparse_rest_after_tokens
rest-nil line zero e = e
rest-nil line (suc n) e = rw (e, cmdparse_rest_after_tokens) refl

tokenize-empty : (n : ℕ) → cmdparse_tokenize [] n ≡ []
unfolding cmdparse_tokenize skip_blanks
tokenize-empty zero = refl
tokenize-empty (suc n) = refl

add-zero_left : (m : ℕ) → 0 + m ≡ m
add-zero_left m = omega arith

add-suc_left : (k m : ℕ) → suc k + m ≡ suc (k + m)
add-suc_left k m = omega arith

List-cases : (s : List ℕ) → (s ≡ []) ⊎ ((c : ℕ) × (p : List ℕ) × (s ≡ c ∷ p))
List-cases [] = inl refl
List-cases (c ∷ p) = inr (c, p, refl)

-- The tokens of the line that cmdparse_rest_after_tokens leaves after `k` tokens are the tokens of
-- the whole line that follow its first `k`, quoted or not.
pub tokenize-rest_after_tokens :
    (line : List ℕ) (k m : ℕ)
    → cmdparse_tokenize line (k + m)
      ≡ cmdparse_tokenize line k ++ cmdparse_tokenize (cmdparse_rest_after_tokens line k) m
unfolding cmdparse_tokenize cmdparse_rest_after_tokens
tokenize-rest_after_tokens line zero m =
    ap (cmdparse_tokenize line) (add-zero_left m) ∙ sym (tokenize-skip line m)
tokenize-rest_after_tokens line (suc k) m =
    let start = ap (cmdparse_tokenize line) (add-suc_left k m) in
    let tail = λ (x : List ℕ). cmdparse_tokenize x m in
    elim (List-cases (skip_blanks line)) [
      | inl e ↦
          tokenize-nil line (suc k + m) e
          ∙ sym (
              ap (λ x. x ++ tail (cmdparse_rest_after_tokens line (suc k)))
                (tokenize-nil line (suc k) e)
              ∙ ap tail (rest-nil line (suc k) e)
              ∙ tokenize-empty m)
      | inr (c, p, e) ↦ elim (Bool-cases (c == quote)) [
        | inl q ↦
            let next = past (token_end is_quote p) in
            start
            ∙ tokenize-quoted line c p (k + m) e q
            ∙ ap (◌∷◌ (token is_quote p)) (tokenize-rest_after_tokens next k m)
            ∙ sym (
                ap (λ x. x ++ tail (cmdparse_rest_after_tokens line (suc k)))
                  (tokenize-quoted line c p k e q)
                ∙ ap (λ x. (token is_quote p ∷ cmdparse_tokenize next k) ++ tail x)
                    (rest-quoted line c p k e q))
        | inr q ↦
            let word = token is_blank (c ∷ p) in
            let next = token_end is_blank (c ∷ p) in
            start
            ∙ tokenize-word line c p (k + m) e q
            ∙ ap (◌∷◌ word)
                (tokenize-past_word (c ∷ p) (k + m) ∙ tokenize-rest_after_tokens next k m)
            ∙ sym (
                ap (λ x. x ++ tail (cmdparse_rest_after_tokens line (suc k)))
                  (tokenize-word line c p k e q ∙ ap (◌∷◌ word) (tokenize-past_word (c ∷ p) k))
                ∙ ap (λ x. (word ∷ cmdparse_tokenize next k) ++ tail x) (rest-word line c p k e q))
      ]
    ]
