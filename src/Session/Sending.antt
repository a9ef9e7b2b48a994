-- ===== src/Session/Sending.antt =====
-- The order of the bytes that server/worker.c sends to a client.
use mathlib.Core.List.{append_assoc}
use lwmsg.Base.{
  append-take-drop, ℕ, zero, suc, ◌+◌, ◌≤◌, ◌<◌, ◌≡◌, ◌⊎◌, inl, inr, refl, sym, ap, subst, ◌∙◌,
  arith, Bool, true, Bool-cases, Option, none, some, List, [], ◌∷◌, ◌++◌, ltb, length, take, drop,
  length-drop, Returns,
}
use lwmsg.Netwrap.{Sent, send_error, send_block, sent, SentWithin}
use lwmsg.Session.{
  Outgoing, Session, NetFns, unsent, send_answer, disconnect, called_send, advance, sent_whole,
}
use lwmsg.Session.Outbound.{SendResult, failed, blocked, done, send_loop, send_one_msg}

-- What is left of a list of messages, and of the message that is being sent.
abbrev pub unsent_all : List Outgoing → List ℕ
unsent_all [] = []
unsent_all (msg ∷ queue) = unsent msg ++ unsent_all queue

abbrev pub unsent_current : Option Outgoing → List ℕ
unsent_current none = []
unsent_current (some msg) = unsent msg

-- The bytes that a client has got and is to get, besides those of the user data queue.
abbrev pub stream : Session → List ℕ
stream s = s.wire ++ unsent_current s.temp_send_storage ++ unsent_all s.pending_ctrl_queue

-- send_fn takes at least one byte and no more than it is offered, or fails or blocks.
abbrev pub ObeysSend : NetFns → Type 0
ObeysSend nfn = (k : ℕ) (bytes : List ℕ) → SentWithin (length bytes) (nfn.send_fn k bytes)

pub Sent-cases : (t : Sent) → (t ≡ send_error) ⊎ (t ≡ send_block) ⊎ ((n : ℕ) × (t ≡ sent n))
Sent-cases send_error = inl refl
Sent-cases send_block = inr (inl refl)
Sent-cases (sent n) = inr (inr (n, refl))

drop-nil : (n : ℕ) → drop {A = ℕ} n [] ≡ []
drop-nil zero = refl
drop-nil (suc n) = refl

drop-drop : (o n : ℕ) (xs : List ℕ) → drop n (drop o xs) ≡ drop (o + n) xs
drop-drop zero n xs = let e : 0 + n ≡ n = omega arith in rw e refl
drop-drop (suc o) n [] = drop-nil n ∙ sym (drop-nil (suc o + n))
drop-drop (suc o) n (x ∷ xs) =
    let e : suc o + n ≡ suc (o + n) = omega arith in rw e (drop-drop o n xs)

pub drop-eq-nil : (n : ℕ) (xs : List ℕ) → length xs ≤ n → drop n xs ≡ []
drop-eq-nil zero [] h = refl
drop-eq-nil zero (x ∷ xs) h = absurd (omega arith)
drop-eq-nil (suc n) [] h = refl
drop-eq-nil (suc n) (x ∷ xs) h = drop-eq-nil n xs (omega arith)

-- One call of send_fn moves bytes from the message to the wire.
pub send_step :
    (wire : List ℕ) (msg : Outgoing) (n : ℕ)
    → wire ++ take n (unsent msg) ++ unsent (record msg { buf_offset = msg.buf_offset + n })
      ≡ wire ++ unsent msg
send_step wire msg n =
    append_assoc wire (take n (unsent msg)) _
    ∙ ap (λ l. wire ++ l)
        (ap (λ l. take n (unsent msg) ++ l) (sym (drop-drop msg.buf_offset n msg.buf))
          ∙ append-take-drop n (unsent msg))

-- What a run of a sending loop leaves as it was.
abbrev pub SameQueues : Session → Session → Type 0
SameQueues s s' =
    (s'.storage ≡ s.storage)
    × (s'.pending_ctrl_queue ≡ s.pending_ctrl_queue)
    × (s'.pending_userdata_queue ≡ s.pending_userdata_queue)
    × (s'.relayed ≡ s.relayed)
    × (s'.recv_calls ≡ s.recv_calls)

-- How a loop that sends may end.
abbrev pub Ended : SendResult → Bool → Session → Type 0
Ended failed was s' =
    (s'.disconnected ≡ true) × ((msg : Outgoing) × (s'.temp_send_storage ≡ some msg))
Ended blocked was s' =
    (s'.disconnected ≡ was) × ((msg : Outgoing) × (s'.temp_send_storage ≡ some msg))
Ended done was s' = (s'.disconnected ≡ was) × (s'.temp_send_storage ≡ none)

-- The bytes on the wire and those left of the message make up what they did before.
pub record Conserves (s : Session) (msg : Outgoing) (res : SendResult) (s' : Session) : Type 0 where
  pub queues : SameQueues s s'
  pub bytes : s'.wire ++ unsent_current s'.temp_send_storage ≡ s.wire ++ unsent msg
  pub ended : Ended res s.disconnected s'
  pub flags : (s'.want_out ≡ s.want_out) × (s'.queue_in ≡ s.queue_in)

send_loop-Conserves :
    (fuel : ℕ) (nfn : NetFns) (s : Session) (msg : Outgoing)
    → ObeysSend nfn
    → s.temp_send_storage ≡ some msg
    → length (unsent msg) < fuel
    → Returns (λ (res, s'). Conserves s msg res s') (send_loop fuel nfn s msg)
unfolding send_loop
send_loop-Conserves zero nfn s msg obeys at enough = absurd (omega arith)
send_loop-Conserves (suc fuel) nfn s msg obeys at enough =
    elim (Bool-cases (ltb msg.buf_offset (length msg.buf))) [
      | inr over ↦
          let empty : unsent msg ≡ [] = drop-eq-nil msg.buf_offset msg.buf (ground arith) in
          (
            (done, sent_whole s),
            rw (over, send_loop) refl,
            record {
              queues = (refl, refl, refl, refl, refl);
              bytes = ap (λ l. s.wire ++ l) (sym empty);
              ended = (refl, refl);
              flags = (refl, refl);
            },
          )
      | inl more ↦ elim (Sent-cases (send_answer nfn s msg)) [
        | inl e ↦ (
          (failed, disconnect (called_send s)),
          rw (more, e, send_loop) refl,
          record {
            queues = (refl, refl, refl, refl, refl);
            bytes = ap (λ t. s.wire ++ unsent_current t) at;
            ended = (refl, (msg, at));
            flags = (refl, refl);
          },
        )
        | inr (inl e) ↦ (
          (blocked, called_send s),
          rw (more, e, send_loop) refl,
          record {
            queues = (refl, refl, refl, refl, refl);
            bytes = ap (λ t. s.wire ++ unsent_current t) at;
            ended = (refl, (msg, at));
            flags = (refl, refl);
          },
        )
        | inr (inr (n, e)) ↦
            let within : SentWithin (length (unsent msg)) (sent n) =
              subst (SentWithin (length (unsent msg))) e (obeys s.send_calls (unsent msg)) in
            let msg' = record msg { buf_offset = msg.buf_offset + n } in
            let shorter : length (unsent msg') < fuel = omega (
              arith,
              within,
              length-drop msg.buf_offset msg.buf,
              length-drop (msg.buf_offset + n) msg.buf,
            ) in
            let ((res, s'), run, c) =
              send_loop-Conserves fuel nfn (advance s msg n) msg' obeys refl shorter in
            (
              (res, s'),
              rw (more, e, send_loop) run,
              record {
                queues = c.queues;
                bytes = c.bytes ∙ send_step s.wire msg n;
                ended = c.ended;
                flags = c.flags;
              },
            )
      ]
    ]

pub send_one_msg-Conserves :
    (nfn : NetFns) (s : Session) (msg : Outgoing)
    → ObeysSend nfn
    → s.temp_send_storage ≡ some msg
    → Returns (λ (res, s'). Conserves s msg res s') (send_one_msg nfn s msg)
unfolding send_one_msg
send_one_msg-Conserves nfn s msg obeys at =
    send_loop-Conserves (length msg.buf + 1) nfn s msg obeys at
      (omega (arith, length-drop msg.buf_offset msg.buf))
