-- ===== src/CmdParse.antt =====
-- common/cmdparse.c. A line is the list of its characters before the NUL. cmdparse_tokenize writes
-- a NUL behind each token, so a token is the list of the characters from its pointer to that NUL.
pub mod Agree
mod Tests
use lwmsg.Base.{ℕ, zero, suc, Bool, ◌||◌, List, [], ◌∷◌, ◌==◌, if◌then◌else◌}

-- ' ' or '\t'.
abbrev pub is_blank : ℕ → Bool
is_blank c = c == 32 || c == 9

abbrev pub quote : ℕ
quote = 34

unfoldable pub skip_blanks : List ℕ → List ℕ
skip_blanks [] = []
skip_blanks (c ∷ p) = let rest = skip_blanks p in if is_blank c then rest else c ∷ p

-- The characters of a token up to a character that ends it, and the line from that character on.
unfoldable pub token : (ℕ → Bool) → List ℕ → List ℕ
token ends [] = []
token ends (c ∷ p) = let rest = c ∷ token ends p in if ends c then [] else rest

unfoldable pub token_end : (ℕ → Bool) → List ℕ → List ℕ
token_end ends [] = []
token_end ends (c ∷ p) = let rest = token_end ends p in if ends c then c ∷ p else rest

abbrev pub is_quote : ℕ → Bool
is_quote c = c == quote

-- `*p++`, unless the line is over.
abbrev pub past : List ℕ → List ℕ
past [] = []
past (c ∷ p) = p

-- One round of the loop for each token that has a place.
unfoldable pub cmdparse_tokenize : List ℕ → ℕ → List (List ℕ)
unfolding skip_blanks token token_end
cmdparse_tokenize line zero = []
cmdparse_tokenize line (suc n) = elim (skip_blanks line) [
  | [] ↦ []
  | c ∷ p ↦
      let quoted = token is_quote p ∷ cmdparse_tokenize (past (token_end is_quote p)) n in
      let word = token is_blank (c ∷ p) ∷ cmdparse_tokenize (past (token_end is_blank (c ∷ p))) n in
      if c == quote then quoted else word
]

unfoldable pub cmdparse_rest_after_tokens : List ℕ → ℕ → List ℕ
unfolding skip_blanks token_end
cmdparse_rest_after_tokens line zero = skip_blanks line
cmdparse_rest_after_tokens line (suc skip) = elim (skip_blanks line) [
  | [] ↦ []
  | c ∷ p ↦
      let quoted = cmdparse_rest_after_tokens (past (token_end is_quote p)) skip in
      let word = cmdparse_rest_after_tokens (token_end is_blank (c ∷ p)) skip in
      if c == quote then quoted else word
]
