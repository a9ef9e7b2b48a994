-- ===== src/Session/Pending.antt =====
-- The sends of server/worker.c: the message that waits, and then the control queue.
use mathlib.Core.List.{append_assoc, append-nil}
use lwmsg.Base.{
  ℕ, ◌≡◌, inl, inr, refl, sym, ap, subst, ◌∙◌, Bool, Bool-cases, Option, none, some, List, [], ◌∷◌,
  ◌++◌, ◌==◌, if◌then◌else◌, length, ◌>>=◌, Returns,
}
use lwmsg.Session.{Outgoing, Session, NetFns, unsent}
use lwmsg.Session.Message.{disconnect_notice}
use lwmsg.Session.Outbound.{
  SendResult, send_one_msg, check_sender, send_current, send_ctrl, send_pending,
  notify_about_disconnect,
}
use lwmsg.Session.Sending.{unsent_all, stream, ObeysSend, send_one_msg-Conserves}
use lwmsg.Session.Response.{unsent_all-append}
use lwmsg.Session.Control.{first_sent, Delivers, send_ctrl-Delivers, after}

-- The notice about the sender of the message that is being sent, if that sender is gone.
abbrev pub notice_of : (List ℕ → Bool) → Option Outgoing → List ℕ
notice_of reach none = []
notice_of reach (some msg) =
    if length msg.subject_name == 0
    then []
    else if reach msg.subject_name
    then []
    else unsent (disconnect_notice msg.subject_name)

-- The message that waits, and then the control queue.
resume :
    (nfn : NetFns) (u : Session) (msg : Outgoing)
    → ObeysSend nfn
    → Returns
        (λ (r, t). Delivers (stream (record u { temp_send_storage = some msg })) u r t)
        (send_one_msg nfn (record u { temp_send_storage = some msg }) msg
          >>= (λ (res, s'). after res s' (send_ctrl nfn s' s'.pending_ctrl_queue)))
resume nfn u msg obeys =
    let ctrl = u.pending_ctrl_queue in
    let ((res, s'), run, c) =
      send_one_msg-Conserves nfn (record u { temp_send_storage = some msg }) msg obeys refl in
    let go : s'.temp_send_storage ≡ none
        → Returns (λ (r, t). Delivers (s'.wire ++ unsent_all ctrl) s' r t)
            (send_ctrl nfn s' s'.pending_ctrl_queue) =
      λ idle.
        subst
          (λ q.
            Returns (λ (r, t). Delivers (s'.wire ++ unsent_all q) s' r t)
              (send_ctrl nfn s' s'.pending_ctrl_queue))
          c.queues.1 (send_ctrl-Delivers nfn s' s'.pending_ctrl_queue obeys idle) in
    let (r, run', d) = first_sent u msg ctrl res s' (send_ctrl nfn s' s'.pending_ctrl_queue) c go in
    (
      r,
      rw run run',
      subst (λ b. Delivers b u r.0 r.1) (sym (append_assoc u.wire (unsent msg) (unsent_all ctrl)))
          d,
    )

-- The bytes may be written otherwise, and the message and the queue that a run began with forgotten.
from :
    {bytes bytes' : List ℕ} {u : Session} {x : Option Outgoing} {q : List Outgoing}
    {res : SendResult} {t : Session}
    → Delivers bytes (record u { temp_send_storage = x; pending_ctrl_queue = q }) res t
    → bytes ≡ bytes'
    → Delivers bytes' u res t
from d e = record {
  all = d.all ∙ e;
  ended = d.ended;
  drained = d.drained;
  same_userdata = d.same_userdata;
  flags = d.flags;
  rest = d.rest;
}

-- What the queues say of a session whose message `x` waits.
pub pending_lem :
    (nfn : NetFns) (reach : List ℕ → Bool) (u : Session) (x : Option Outgoing)
    → ObeysSend nfn
    → (x ≡ none → u.pending_ctrl_queue ≡ [])
    → Returns
        (λ (res, s').
          Delivers (stream (record u { temp_send_storage = x }) ++ notice_of reach x) u res s')
        (send_pending nfn reach (record u { temp_send_storage = x }))
unfolding send_pending send_current check_sender notify_about_disconnect
pending_lem nfn reach u none obeys idle =
    let (r, run, d) =
      send_ctrl-Delivers nfn (record u { temp_send_storage = none }) u.pending_ctrl_queue obeys
        refl in
    (
      r,
      run,
      from d (
          ap (λ l. l ++ unsent_all u.pending_ctrl_queue) (sym (append-nil u.wire))
          ∙ sym (append-nil _)),
    )
pending_lem nfn reach u (some msg) obeys idle = elim (Bool-cases (length msg.subject_name == 0)) [
  | inl own ↦
      let (r, run, d) = resume nfn u msg obeys in
      (r, rw own run, rw own (from d (sym (append-nil _))))
  | inr named ↦ elim (Bool-cases (reach msg.subject_name)) [
    | inl here ↦
        let (r, run, d) = resume nfn u msg obeys in
        (r, rw (named, here) run, rw (named, here) (from d (sym (append-nil _))))
    | inr gone ↦
        let notice = disconnect_notice msg.subject_name in
        let noted = record u { pending_ctrl_queue = u.pending_ctrl_queue ++ notice ∷ [] } in
        let (r, run, d) = resume nfn noted msg obeys in
        (
          r,
          rw (named, gone) run,
          rw (named, gone)
              (from d (
                ap (λ l. u.wire ++ unsent msg ++ l) (unsent_all-append u.pending_ctrl_queue notice)
                ∙ sym (append_assoc (u.wire ++ unsent msg) _ _))),
        )
  ]
]
