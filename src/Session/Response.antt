-- ===== src/Session/Response.antt =====
-- wt_serve_response of server/worker.c.
use mathlib.Core.List.{append_assoc, append-nil}
use lwmsg.Base.{
  ℕ, zero, suc, ◌+◌, ◌<◌, ◌≡◌, ◌⊎◌, inl, inr, refl, sym, ap, subst, ◌∙◌, arith, true, Bool-cases,
  Option, none, some, List, [], ◌∷◌, ◌++◌, ltb, length, take, length-drop, Returns,
}
use lwmsg.Netwrap.{sent, SentWithin}
use lwmsg.Session.{
  Outgoing, Session, NetFns, unsent, send_answer, disconnect, called_send, advance, sent_whole,
}
use lwmsg.Session.Outbound.{serve_loop, wt_serve_response}
use lwmsg.Session.Sending.{
  unsent_all, unsent_current, stream, ObeysSend, Sent-cases, drop-eq-nil, send_step, SameQueues,
}

-- A message that waits in `temp_send_storage` has the socket watched for EPOLLOUT, unless the client is
-- gone; and the control queue is empty where none waits.
pub record IsAwake (s : Session) : Type 0 where
  pub idle : s.temp_send_storage ≡ none → s.pending_ctrl_queue ≡ []
  pub waiting :
      (msg : Outgoing)
      → s.temp_send_storage ≡ some msg
      → (s.want_out ≡ true) ⊎ (s.disconnected ≡ true)

-- How wt_serve_response leaves a message that it sends at once.
record Served (s : Session) (msg : Outgoing) (s' : Session) : Type 0 where
  queues : SameQueues s s'
  bytes : s'.wire ++ unsent_current s'.temp_send_storage ≡ s.wire ++ unsent msg
  ended :
      (s'.temp_send_storage ≡ none)
      ⊎ (((m : Outgoing) × (s'.temp_send_storage ≡ some m))
          × ((s'.want_out ≡ true) ⊎ (s'.disconnected ≡ true)))

serve_loop-Served :
    (fuel : ℕ) (nfn : NetFns) (s : Session) (msg : Outgoing)
    → ObeysSend nfn
    → s.temp_send_storage ≡ some msg
    → length (unsent msg) < fuel
    → Returns (Served s msg) (serve_loop fuel nfn s msg)
unfolding serve_loop
serve_loop-Served zero nfn s msg obeys at enough = absurd (omega arith)
serve_loop-Served (suc fuel) nfn s msg obeys at enough = elim (Sent-cases (send_answer nfn s msg)) [
  | inl e ↦ (
    disconnect (called_send s),
    rw (e, serve_loop) refl,
    record {
      queues = (refl, refl, refl, refl, refl);
      bytes = ap (λ t. s.wire ++ unsent_current t) at;
      ended = inr ((msg, at), inr refl);
    },
  )
  | inr (inl e) ↦ (
    record (called_send s) { want_out = true },
    rw (e, serve_loop) refl,
    record {
      queues = (refl, refl, refl, refl, refl);
      bytes = ap (λ t. s.wire ++ unsent_current t) at;
      ended = inr ((msg, at), inl refl);
    },
  )
  | inr (inr (n, e)) ↦
      let within : SentWithin (length (unsent msg)) (sent n) =
        subst (SentWithin (length (unsent msg))) e (obeys s.send_calls (unsent msg)) in
      let msg' = record msg { buf_offset = msg.buf_offset + n } in
      let shorter : length (unsent msg') < fuel = omega (
        arith,
        within,
        length-drop msg.buf_offset msg.buf,
        length-drop (msg.buf_offset + n) msg.buf,
      ) in
      elim (Bool-cases (ltb msg'.buf_offset (length msg.buf))) [
        | inl more ↦
            let (s', run, c) =
              serve_loop-Served fuel nfn (advance s msg n) msg' obeys refl shorter in
            (
              s',
              rw (e, more, serve_loop) run,
              record {
                queues = c.queues;
                bytes = c.bytes ∙ send_step s.wire msg n;
                ended = c.ended;
              },
            )
        | inr over ↦
            let empty : unsent msg' ≡ [] = drop-eq-nil msg'.buf_offset msg.buf (ground arith) in
            (
              sent_whole (advance s msg n),
              rw (e, over, serve_loop) refl,
              record {
                queues = (refl, refl, refl, refl, refl);
                bytes =
                    ap (λ l. s.wire ++ take n (unsent msg) ++ l) (sym empty)
                    ∙ send_step s.wire msg n;
                ended = inl refl;
              },
            )
      ]
]

Served-IsAwake :
    {s : Session} {msg : Outgoing} {s' : Session}
    → Served s msg s'
    → s'.pending_ctrl_queue ≡ []
    → IsAwake s'
Served-IsAwake {s} {msg} {s'} c quiet = record {
  idle = λ _. quiet;
  waiting = λ m at. ground (arith, c.ended);
}

quiet-stream :
    (s s' : Session) (msg : Outgoing)
    → s.temp_send_storage ≡ none
    → s.pending_ctrl_queue ≡ []
    → s'.pending_ctrl_queue ≡ []
    → s'.wire ++ unsent_current s'.temp_send_storage ≡ s.wire ++ unsent msg
    → stream s' ≡ stream s ++ unsent msg
quiet-stream s s' msg e quiet quiet' bytes =
    ap (λ q. s'.wire ++ unsent_current s'.temp_send_storage ++ unsent_all q) quiet'
    ∙ append-nil _
    ∙ bytes
    ∙ sym (
        ap (λ q. s.wire ++ unsent_current s.temp_send_storage ++ unsent_all q ++ unsent msg) quiet
        ∙ ap (λ t. s.wire ++ unsent_current t ++ [] ++ unsent msg) e
        ∙ ap (λ l. l ++ unsent msg) (append-nil _ ∙ append-nil s.wire))

pub unsent_all-append :
    (queue : List Outgoing) (msg : Outgoing)
    → unsent_all (queue ++ msg ∷ []) ≡ unsent_all queue ++ unsent msg
unsent_all-append [] msg = append-nil (unsent msg)
unsent_all-append (m ∷ queue) msg =
    ap (λ l. unsent m ++ l) (unsent_all-append queue msg)
    ∙ sym (append_assoc (unsent m) (unsent_all queue) (unsent msg))

-- What a session has besides what it sends.
abbrev pub KeepsRest : Session → Session → Type 0
KeepsRest s s' =
    (s'.storage ≡ s.storage)
    × (s'.pending_userdata_queue ≡ s.pending_userdata_queue)
    × (s'.relayed ≡ s.relayed)
    × (s'.recv_calls ≡ s.recv_calls)

-- Where send_fn takes no more than it is asked to, and the session is awake (the control queue is
-- empty if no message is half sent, and the socket is watched if one is), wt_serve_response puts a
-- response behind all the bytes that the client is to get, whole and in order, whether it is sent
-- at once, in part, or queued; the session is awake after it.
pub serve_response-stream :
    (nfn : NetFns) (s : Session) (msg : Outgoing)
    → ObeysSend nfn
    → IsAwake s
    → Returns
        (λ s'. (stream s' ≡ stream s ++ unsent msg) × IsAwake s' × KeepsRest s s')
        (wt_serve_response nfn s msg)
unfolding wt_serve_response
serve_response-stream nfn s msg obeys awake = elim (Option-cases s.temp_send_storage) [
  | inl e ↦
      let fits : length (unsent msg) < length msg.buf + 1 =
        omega (arith, length-drop msg.buf_offset msg.buf) in
      let (s', run, c) =
        serve_loop-Served (length msg.buf + 1) nfn (record s { temp_send_storage = some msg }) msg
          obeys refl fits in
      let quiet = c.queues.1 ∙ awake.idle e in
      (
        s',
        rw (e, wt_serve_response) run,
        (
          quiet-stream s s' msg e (awake.idle e) quiet c.bytes,
          Served-IsAwake c quiet,
          (c.queues.0, c.queues.2, c.queues.3, c.queues.4),
        ),
      )
  | inr (current, e) ↦
      let s' = record s { pending_ctrl_queue = s.pending_ctrl_queue ++ msg ∷ [] } in
      (
        s',
        ground (arith, e),
        (
          ap (λ l. s.wire ++ unsent_current s.temp_send_storage ++ l)
                (unsent_all-append s.pending_ctrl_queue msg)
              ∙ sym (append_assoc (s.wire ++ unsent_current s.temp_send_storage) _ _),
          record {
            idle = λ none_left. absurd (ground (arith, e, none_left));
            waiting = awake.waiting;
          },
          (refl, refl, refl, refl),
        ),
      )
]
  where
    Option-cases : (o : Option Outgoing) → (o ≡ none) ⊎ ((m : Outgoing) × (o ≡ some m))
    Option-cases none = inl refl
    Option-cases (some m) = inr (m, refl)
