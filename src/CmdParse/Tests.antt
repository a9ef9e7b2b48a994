-- ===== src/CmdParse/Tests.antt =====
-- The line `msg "a b" c`.
use lwmsg.Base.{List, ℕ, ◌≡◌, refl, ◌+◌, ◌++◌, [], ◌∷◌}
use lwmsg.CmdParse.{cmdparse_tokenize, cmdparse_rest_after_tokens}
use lwmsg.CmdParse.Agree.{tokenize-rest_after_tokens}

abbrev line : List ℕ
line = 109 ∷ 115 ∷ 103 ∷ 32 ∷ 34 ∷ 97 ∷ 32 ∷ 98 ∷ 34 ∷ 32 ∷ 99 ∷ []

line-tokens :
    cmdparse_tokenize line 8 ≡ (109 ∷ 115 ∷ 103 ∷ []) ∷ (97 ∷ 32 ∷ 98 ∷ []) ∷ (99 ∷ []) ∷ []
unfolding cmdparse_tokenize
line-tokens = refl

tokenize-rest_after_tokens_example :
    cmdparse_tokenize line (2 + 3)
    ≡ cmdparse_tokenize line 2 ++ cmdparse_tokenize (cmdparse_rest_after_tokens line 2) 3
tokenize-rest_after_tokens_example = tokenize-rest_after_tokens line 2 3
