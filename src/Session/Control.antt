-- ===== src/Session/Control.antt =====
-- The loop of server/worker.c that sends the control queue.
use mathlib.Core.List.{append_assoc, append-nil}
use lwmsg.Base.{ℕ, ◌≡◌, refl, sym, ap, subst, ◌∙◌, Option, none, some, List, [], ◌∷◌, ◌++◌, Returns}
use lwmsg.Session.{Outgoing, Session, NetFns, unsent}
use lwmsg.Session.Outbound.{SendResult, failed, blocked, done, send_ctrl}
use lwmsg.Session.Sending.{
  unsent_all, unsent_current, stream, ObeysSend, Ended, Conserves, send_one_msg-Conserves,
}

-- What the sends leave of the rest of the session.
abbrev pub KeepsInbound : Session → Session → Type 0
KeepsInbound s s' =
    (s'.storage ≡ s.storage) × (s'.relayed ≡ s.relayed) × (s'.recv_calls ≡ s.recv_calls)

-- A run that is done leaves no message of the control queue.
abbrev pub Drained : SendResult → Session → Type 0
Drained failed s' = Unit
Drained blocked s' = Unit
Drained done s' = s'.pending_ctrl_queue ≡ []

-- A run of sends that has `bytes` on the wire or to send, `was` the connection's end before.
pub record Delivers (bytes : List ℕ) (s : Session) (res : SendResult) (s' : Session) : Type 0 where
  pub all : stream s' ≡ bytes
  pub ended : Ended res s.disconnected s'
  pub drained : Drained res s'
  pub same_userdata : s'.pending_userdata_queue ≡ s.pending_userdata_queue
  pub flags : (s'.want_out ≡ s.want_out) × (s'.queue_in ≡ s.queue_in)
  pub rest : KeepsInbound s s'

-- The message and then the queue.
pub conserved_stream :
    (s s' : Session) (msg : Outgoing) (ctrl : List Outgoing)
    → s'.wire ++ unsent_current s'.temp_send_storage ≡ s.wire ++ unsent msg
    → s'.pending_ctrl_queue ≡ ctrl
    → stream s' ≡ s.wire ++ unsent_all (msg ∷ ctrl)
conserved_stream s s' msg ctrl bytes queue =
    ap (λ q. s'.wire ++ unsent_current s'.temp_send_storage ++ unsent_all q) queue
    ∙ ap (λ l. l ++ unsent_all ctrl) bytes
    ∙ append_assoc s.wire (unsent msg) (unsent_all ctrl)

-- After a message that was sent whole.
pub done_wire :
    (s s' : Session) (msg : Outgoing)
    → s'.wire ++ unsent_current s'.temp_send_storage ≡ s.wire ++ unsent msg
    → s'.temp_send_storage ≡ none
    → s'.wire ≡ s.wire ++ unsent msg
done_wire s s' msg bytes gone =
    sym (append-nil s'.wire) ∙ sym (ap (λ t. s'.wire ++ unsent_current t) gone) ∙ bytes

-- The result of a send that is not done stands for the whole run.
abbrev pub after :
    SendResult → Session → Option (SendResult × Session) → Option (SendResult × Session)
after res s' next = elim res [
  | failed ↦ some (failed, s')
  | blocked ↦ some (blocked, s')
  | done ↦ next
]

module _ (s : Session) (msg : Outgoing) (ctrl : List Outgoing) where
  -- A message that is sent before the rest of a queue.
  pub first_sent :
      (res : SendResult) (s' : Session) (next : Option (SendResult × Session))
      → Conserves (record s { pending_ctrl_queue = ctrl; temp_send_storage = some msg }) msg res s'
      → (s'.temp_send_storage ≡ none
          → Returns (λ (r, t). Delivers (s'.wire ++ unsent_all ctrl) s' r t) next)
      → Returns (λ (r, t). Delivers (s.wire ++ unsent_all (msg ∷ ctrl)) s r t) (after res s' next)
  first_sent failed s' next c go = (
    (failed, s'),
    refl,
    record {
      all = conserved_stream s s' msg ctrl c.bytes c.queues.1;
      ended = c.ended;
      drained = tt;
      same_userdata = c.queues.2;
      flags = c.flags;
      rest = (c.queues.0, c.queues.3, c.queues.4);
    },
  )
  first_sent blocked s' next c go = (
    (blocked, s'),
    refl,
    record {
      all = conserved_stream s s' msg ctrl c.bytes c.queues.1;
      ended = c.ended;
      drained = tt;
      same_userdata = c.queues.2;
      flags = c.flags;
      rest = (c.queues.0, c.queues.3, c.queues.4);
    },
  )
  first_sent done s' next c go =
      let ((r, t), run, d) = go c.ended.1 in
      (
        (r, t),
        run,
        record {
          all =
              d.all
              ∙ ap (λ l. l ++ unsent_all ctrl) (done_wire s s' msg c.bytes c.ended.1)
              ∙ append_assoc s.wire (unsent msg) (unsent_all ctrl);
          ended = subst (λ b. Ended r b t) c.ended.0 d.ended;
          drained = d.drained;
          same_userdata = d.same_userdata ∙ c.queues.2;
          flags = (d.flags.0 ∙ c.flags.0, d.flags.1 ∙ c.flags.1);
          rest = (d.rest.0 ∙ c.queues.0, d.rest.1 ∙ c.queues.3, d.rest.2 ∙ c.queues.4);
        },
      )

pub send_ctrl-Delivers :
    (nfn : NetFns) (s : Session) (ctrl : List Outgoing)
    → ObeysSend nfn
    → s.temp_send_storage ≡ none
    → Returns (λ (res, s'). Delivers (s.wire ++ unsent_all ctrl) s res s') (send_ctrl nfn s ctrl)
unfolding send_ctrl
send_ctrl-Delivers nfn s [] obeys gone = (
  (done, record s { pending_ctrl_queue = [] }),
  refl,
  record {
    all = ap (λ t. s.wire ++ unsent_current t ++ []) gone ∙ append-nil (s.wire ++ []);
    ended = (refl, gone);
    drained = refl;
    same_userdata = refl;
    flags = (refl, refl);
    rest = (refl, refl, refl);
  },
)
send_ctrl-Delivers nfn s (msg ∷ ctrl) obeys gone =
    let s0 = record s { pending_ctrl_queue = ctrl; temp_send_storage = some msg } in
    let ((res, s'), run, c) = send_one_msg-Conserves nfn s0 msg obeys refl in
    let (r, run', d) =
      first_sent s msg ctrl res s' (send_ctrl nfn s' ctrl) c
        (λ idle. send_ctrl-Delivers nfn s' ctrl obeys idle) in
    (r, rw (run, send_ctrl) run', d)
