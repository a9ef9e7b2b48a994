-- ===== src/Client/Pieces.antt =====
-- The bytes reach the client of client/clrecv.c in pieces: where they are cut does not matter.
use mathlib.Core.List.{append_assoc, append-nil}
use lwmsg.Base.{
  ℕ, ◌+◌, ◌≤◌, ◌<◌, ◌≡◌, ◌⊎◌, inl, inr, refl, sym, ap, subst, ◌∙◌, arith, Bool-cases, Option, some,
  List, [], ◌∷◌, ◌++◌, ltb, length, ◌>>=◌, All, length-append,
}
use lwmsg.Client.{ClientCtx, Outside}
use lwmsg.Client.Parse.{clrecv_parse}
use lwmsg.Client.Frame.{with_buf, IsFrame, receive}
use lwmsg.Client.Stream.{concat, receive_all, IsPartial, length-frame, clrecv_parse-frames}

-- The pieces come one by one, each followed by a call of clrecv_parse.
unfoldable pub feed : Outside → ClientCtx → List (List ℕ) → Option ClientCtx
feed env ctx [] = some ctx
feed env ctx (piece ∷ pieces) =
    clrecv_parse env (with_buf (ctx.recv_buf ++ piece) ctx) >>= (λ ctx'. feed env ctx' pieces)

-- Of two ways to cut a list, the first is the earlier.
cut :
    (xs ys zs ws : List ℕ)
    → xs ++ ys ≡ zs ++ ws
    → length xs ≤ length zs
    → (m : List ℕ) × (zs ≡ xs ++ m) × (ys ≡ m ++ ws)
cut [] ys zs ws e h = (zs, refl, e)
cut (x ∷ xs) ys [] ws e h = absurd (omega arith)
cut (x ∷ xs) ys (z ∷ zs) ws e h =
    let tails : xs ++ ys ≡ zs ++ ws = cc in
    let heads : x ≡ z = cc in
    let (m, p, q) = cut xs ys zs ws tails (omega arith) in
    (m, ap (◌∷◌ z) p ∙ ap (λ a. a ∷ (xs ++ m)) (sym heads), q)

-- `b`, the begin of the messages, is some of them whole and a part `t` of the next; `q` is the rest.
record Cut (env : Outside) (frames : List (List ℕ)) (b q : List ℕ) : Type 0 where
  done : List (List ℕ)
  left : List (List ℕ)
  t : List ℕ
  begin : b ≡ concat done ++ t
  rest : t ++ q ≡ concat left
  done_frames : All IsFrame done
  left_frames : All IsFrame left
  partial : (t ≡ []) ⊎ IsPartial t
  before : (t ≡ []) ⊎ (length t < length (concat left))
  order :
      (ctx : ClientCtx)
      → receive_all env (receive_all env ctx done) left ≡ receive_all env ctx frames

Cut-frames :
    (env : Outside) (frames : List (List ℕ)) (b q : List ℕ)
    → All IsFrame frames
    → b ++ q ≡ concat frames
    → Cut env frames b q
Cut-frames env [] [] q ps e = record {
  done = [];
  left = [];
  t = [];
  begin = refl;
  rest = e;
  done_frames = tt;
  left_frames = tt;
  partial = inl refl;
  before = inl refl;
  order = λ ctx. refl;
}
Cut-frames env [] (x ∷ b) q ps e = absurd (cc)
Cut-frames env (f ∷ frames) b q ps e = elim (Bool-cases (ltb (length b) (length f))) [
  | inl short ↦
      let (m, f_b, q_m) = cut b q f (concat frames) e (ground arith) in
      let len : length f ≡ length b + length m = ap length f_b ∙ length-append b m in
      record {
        done = [];
        left = f ∷ frames;
        t = b;
        begin = refl;
        rest = e;
        done_frames = tt;
        left_frames = ps;
        partial = inr (record {
          missing = m;
          some_missing = ground (arith, len);
          frame = subst IsFrame f_b ps.0;
        });
        before = inr (ground (arith, length-append f (concat frames)));
        order = λ ctx. refl;
      }
  | inr long ↦
      let (m, b_f, c) = cut f (concat frames) b q (sym e) (ground arith) in
      let r = Cut-frames env frames m q ps.1 (sym c) in
      record {
        done = f ∷ r.done;
        left = r.left;
        t = r.t;
        begin = b_f ∙ ap (λ z. f ++ z) r.begin ∙ sym (append_assoc f (concat r.done) r.t);
        rest = r.rest;
        done_frames = (ps.0, r.done_frames);
        left_frames = r.left_frames;
        partial = r.partial;
        before = r.before;
        order = λ ctx. r.order (receive env ctx f);
      }
]

feed-frames_from :
    (env : Outside) (pieces frames : List (List ℕ)) (t : List ℕ) (ctx : ClientCtx)
    → All IsFrame frames
    → t ++ concat pieces ≡ concat frames
    → (t ≡ []) ⊎ (length t < length (concat frames))
    → feed env (with_buf t ctx) pieces ≡ some (with_buf [] (receive_all env ctx frames))
unfolding feed
feed-frames_from env [] [] t ctx ps e b = ap (λ z. some (with_buf z ctx)) (sym (append-nil t) ∙ e)
feed-frames_from env [] (f ∷ frames) t ctx ps e b =
    let len : length t ≡ length f + length (concat frames) =
      ap length (sym (append-nil t) ∙ e) ∙ length-append f (concat frames) in
    let pos = length-frame f ps.0 in
    let total = length-append f (concat frames) in
    absurd (elim b as (λ _. ⊥) [ inl nil ↦ omega (arith, ap length nil) | inr lt ↦ omega arith ])
feed-frames_from env (piece ∷ pieces) frames t ctx ps e b =
    let r =
      Cut-frames env frames (t ++ piece) (concat pieces) ps
        (append_assoc t piece (concat pieces) ∙ e) in
    let ctx' = receive_all env ctx r.done in
    ap (λ c. c >>= (λ c'. feed env c' pieces))
      (ap (λ z. clrecv_parse env (with_buf z ctx)) r.begin
        ∙ clrecv_parse-frames env ctx r.done r.t r.done_frames r.partial)
    ∙ feed-frames_from env pieces r.left r.t ctx' r.left_frames r.rest r.before
    ∙ ap (λ c. some (with_buf [] c)) (r.order ctx)

-- Whole messages (PDUs with a checksum that agrees, which fit the buffer and are no empty texts, and
-- chunks) that reach an empty buffer in any pieces, each followed by a call of clrecv_parse, leave
-- what the handlers make of the messages one by one, in their order, and an empty buffer.
pub feed-frames :
    (env : Outside) (ctx : ClientCtx) (frames pieces : List (List ℕ))
    → All IsFrame frames
    → concat pieces ≡ concat frames
    → feed env (with_buf [] ctx) pieces ≡ some (with_buf [] (receive_all env ctx frames))
feed-frames env ctx frames pieces ps e = feed-frames_from env pieces frames [] ctx ps e (inl refl)
