-- ===== src/Client/SafeReach.antt =====
-- The calls and the rounds of the loops of client/clrecv.c in any order, those of a loop that does not
-- end among them.
use lwmsg.Base.{
  ℕ, ◌+◌, ◌%◌, ◌^◌, ◌≡◌, refl, sym, subst, Bool, not, Option, some, List, ltb, ◌==◌, length, set,
  ◌>>=◌, Returns,
}
use lwmsg.Lwmp.{
  lwmp_hdr_size, pdu_sync_hdr_mark, chunk_sync_hdr_mark, hdr_mark, hdr_crc32, pdu_crc32,
}
use lwmsg.Lwmp.Resync.{stream_resync-eq-first_candidate}
use lwmsg.Client.{ClientCtx, Outside, recv_buf_size}
use lwmsg.Client.Parse.{wire_payload, parse_pdu, parse_step, clrecv_fill, resync}
use lwmsg.Client.Rest.{if_lem}
use lwmsg.Client.SafeEvents.{IsSafe}
use lwmsg.Client.SafeLoops.{Leaves, parse_step-Leaves, fill_loop-Leaves}

-- The client gets from one state to another by calls of clrecv_fill and rounds of clrecv_parse.
pub data Rounds (env : Outside) (ctx : ClientCtx) : ClientCtx → Type 0 where
  start : Rounds env ctx ctx
  fill :
      {before after : ClientCtx} {alive : Bool}
      → Rounds env ctx before
      → clrecv_fill env before ≡ some (alive, after)
      → Rounds env ctx after
  parse :
      {before after : ClientCtx} {more : Bool}
      → Rounds env ctx before
      → parse_step env before ≡ some (more, after)
      → Rounds env ctx after

-- A part of the loop that returns.
abbrev Ends : {A : Type 0} → Option A → Type 0
Ends {A} r = Returns (λ (a : A). Unit {0}) r

resync-Ends : (ctx : ClientCtx) (buf : List ℕ) → Ends (resync ctx buf)
resync-Ends ctx buf =
    subst (λ r. Ends (r >>= (λ left. some (record ctx { recv_buf = left }))))
      (sym (stream_resync-eq-first_candidate buf)) (_, refl, tt)

then-Ends : {A B : Type 0} (r : Option A) (f : A → B) → Ends r → Ends (r >>= (λ a. some (f a)))
then-Ends r f (a, run, t) = subst (λ r. Ends (r >>= (λ a. some (f a)))) (sym run) (f a, refl, tt)

parse_pdu-Ends : (env : Outside) (ctx : ClientCtx) → Ends (parse_pdu env ctx)
unfolding parse_pdu
parse_pdu-Ends env ctx =
    let buf = ctx.recv_buf in
    if_lem Ends (ltb (length buf) lwmp_hdr_size) (λ _. (_, refl, tt))
      (λ _.
        if_lem Ends (not (hdr_crc32 buf == pdu_crc32 buf))
          (λ _. then-Ends (resync ctx (set buf 0 0)) _ (resync-Ends ctx (set buf 0 0)))
          (λ _.
            if_lem Ends (ltb (length buf) ((lwmp_hdr_size + wire_payload buf) % 2 ^ 64))
              (λ _. (_, refl, tt)) (λ _. (_, refl, tt))))

parse_step-Ends : (env : Outside) (ctx : ClientCtx) → Ends (parse_step env ctx)
unfolding parse_step
parse_step-Ends env ctx =
    let buf = ctx.recv_buf in
    if_lem Ends (ltb (length buf) 4) (λ _. (_, refl, tt))
      (λ _.
        if_lem Ends (hdr_mark buf == pdu_sync_hdr_mark) (λ _. parse_pdu-Ends env ctx)
          (λ _.
            if_lem Ends (hdr_mark buf == chunk_sync_hdr_mark) (λ _. (_, refl, tt))
              (λ _. then-Ends (resync ctx buf) _ (resync-Ends ctx buf))))

reached : {env : Outside} {ctx ctx' : ClientCtx} → IsSafe ctx → Rounds env ctx ctx' → IsSafe ctx'
unfolding clrecv_fill
reached h start = h
reached {env} h (fill {before} r run) =
    subst Leaves run (fill_loop-Leaves (recv_buf_size + 1) env before (reached h r))
reached {env} h (parse {before} r run) =
    subst Leaves run (parse_step-Leaves env before (reached h r))

-- Whatever the server sends, in any pieces, and whatever files there are: in every state that the
-- calls of clrecv_fill and the rounds of clrecv_parse lead to, the client has made files only under
-- names that are not empty, hold neither of the separators / and \, and are not . or .. , if this
-- was so at first; and the next round of clrecv_parse returns.
pub Rounds-IsSafe :
    {env : Outside} {ctx ctx' : ClientCtx}
    → IsSafe ctx
    → Rounds env ctx ctx'
    → IsSafe ctx' × Returns (λ r. IsSafe r.1) (parse_step env ctx')
Rounds-IsSafe {env} {ctx} {ctx'} h r =
    let safe = reached h r in
    let (a, run, t) = parse_step-Ends env ctx' in
    (safe, (a, run, subst Leaves run (parse_step-Leaves env ctx' safe)))
