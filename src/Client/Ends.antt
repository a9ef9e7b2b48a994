-- ===== src/Client/Ends.antt =====
-- The loop of clrecv_parse of client/clrecv.c ends.
use lwmsg.Base.{
  ℕ, zero, suc, ◌+◌, ◌<◌, ◌≡◌, ◌⊎◌, inl, inr, refl, sym, subst, arith, Bool, true, false, Option,
  some, length, ◌>>=◌, Returns,
}
use lwmsg.Client.{ClientCtx, Outside}
use lwmsg.Client.Parse.{parse_step, parse_loop, clrecv_parse}
use lwmsg.Client.Shorter.{IsHuge, Progress, parse_step-Progress}

-- Parses of the loop lead from one state to another.
pub data Parses (env : Outside) (ctx : ClientCtx) : ClientCtx → Type 0 where
  here : Parses env ctx ctx
  then_round :
      {before after : ClientCtx} {more : Bool}
      → Parses env ctx before
      → parse_step env before ≡ some (more, after)
      → Parses env ctx after

-- The loop ends, or comes to a header whose size overflows.
abbrev pub Ended : Outside → ClientCtx → Option ClientCtx → Type 0
Ended env ctx r =
    Returns (Parses env ctx) r ⊎ ((ctx' : ClientCtx) × Parses env ctx ctx' × IsHuge ctx')

-- What follows a round that returned.
after_round :
    (fuel : ℕ) (env : Outside) (ctx : ClientCtx) (more : Bool) (c : ClientCtx)
    → Parses env ctx c
    → (more ≡ true → Ended env ctx (parse_loop fuel env c))
    → Ended env ctx (elim more [ true ↦ parse_loop fuel env c | false ↦ some c ])
after_round fuel env ctx true c r k = k refl
after_round fuel env ctx false c r k = inl (c, refl, r)

parse_loop-Ended :
    (fuel : ℕ) (env : Outside) (ctx c : ClientCtx)
    → Parses env ctx c
    → length c.recv_buf < fuel
    → Ended env ctx (parse_loop fuel env c)
unfolding parse_loop
parse_loop-Ended zero env ctx c r h = absurd (omega arith)
parse_loop-Ended (suc fuel) env ctx c r h =
    let ((more, c'), run, progress) = parse_step-Progress env c in
    let r' : Parses env ctx c' = then_round r run in
    subst
      (λ s.
        Ended env ctx (s >>= (λ (m, d). elim m [ true ↦ parse_loop fuel env d | false ↦ some d ])))
      (sym run)
      (after_round fuel env ctx more c' r' (λ e. elim (subst (λ m. Progress c (m, c')) e progress) [
        | inl shorter ↦ parse_loop-Ended fuel env ctx c' r' (omega arith)
        | inr huge ↦ inr (c, r, huge)
      ]))

-- The loop of clrecv_parse ends, with a fuel of one more than the bytes in the buffer, in a state that
-- its rounds lead to; or its rounds lead to a state whose buffer begins with a header that is in order
-- and whose size, with the header, is 2 ^ 64 or more.
pub clrecv_parse-Ended :
    (env : Outside) (ctx : ClientCtx)
    → Returns (Parses env ctx) (clrecv_parse env ctx)
      ⊎ ((ctx' : ClientCtx) × Parses env ctx ctx' × IsHuge ctx')
unfolding clrecv_parse
clrecv_parse-Ended env ctx =
    parse_loop-Ended (length ctx.recv_buf + 1) env ctx ctx here (omega arith)
