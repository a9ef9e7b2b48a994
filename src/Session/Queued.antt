-- ===== src/Session/Queued.antt =====
-- wt_handle_queued_messages of server/worker.c.
use mathlib.Core.List.{append-nil}
use lwmsg.Base.{
  ℕ, ◌≡◌, ◌⊎◌, inl, inr, refl, sym, ap, subst, ◌∙◌, arith, Bool, false, Bool-cases, Option, none,
  some, List, [], ◌∷◌, ◌++◌, if◌then◌else◌, ◌>>=◌, Returns,
}
use lwmsg.Session.{Outgoing, Session, NetFns, unsent}
use lwmsg.Session.Message.{disconnect_notice}
use lwmsg.Session.Outbound.{
  SendResult, failed, blocked, done, send_one_msg, wt_handle_queued_messages, send_userdata,
  after_send, notify_about_disconnect, flush,
}
use lwmsg.Session.Sending.{
  unsent_all, unsent_current, stream, ObeysSend, Conserves, send_one_msg-Conserves,
}
use lwmsg.Session.Response.{IsAwake}
use lwmsg.Session.Control.{KeepsInbound, Delivers}
use lwmsg.Session.Pending.{notice_of, pending_lem}
use lwmsg.Session.Delivery.{Ended-IsAwake}

-- What the first message of the user data queue adds to the bytes, and what it leaves of the queue: if its
-- sender is gone, a notice takes its place, and the other messages of that sender are dropped.
abbrev pub next_bytes : (List ℕ → Bool) → List Outgoing → List ℕ
next_bytes reach [] = []
next_bytes reach (msg ∷ queue) =
    if reach msg.subject_name then unsent msg else unsent (disconnect_notice msg.subject_name)

abbrev pub next_queue : (List ℕ → Bool) → List Outgoing → List Outgoing
next_queue reach [] = []
next_queue reach (msg ∷ queue) =
    if reach msg.subject_name then queue else flush queue msg.subject_name

-- A send of one more message of a session with nothing to send.
pub record Passed (bytes : List ℕ) (queue : List Outgoing) (u t : Session) : Type 0 where
  pub all : stream t ≡ bytes
  pub awake : IsAwake t
  pub userdata : t.pending_userdata_queue ≡ queue
  pub rest : KeepsInbound u t

-- Where the control queue is empty.
quiet_end :
    (s : Session)
    → s.pending_ctrl_queue ≡ []
    → stream s ≡ s.wire ++ unsent_current s.temp_send_storage
quiet_end s quiet =
    ap (λ q. s.wire ++ unsent_current s.temp_send_storage ++ unsent_all q) quiet ∙ append-nil _

pass_one :
    (nfn : NetFns) (u : Session) (msg : Outgoing)
    → ObeysSend nfn
    → u.pending_ctrl_queue ≡ []
    → Returns (Passed (u.wire ++ unsent msg) u.pending_userdata_queue u) (
        send_one_msg nfn (record u { temp_send_storage = some msg }) msg
        >>= (λ (res, s''). some (after_send res s'')))
pass_one nfn u msg obeys quiet =
    let ((res, s'), run, c) =
      send_one_msg-Conserves nfn (record u { temp_send_storage = some msg }) msg obeys refl in
    (after_send res s', rw run refl, passed res s' c)
  where
    passed :
        (res : SendResult) (s' : Session)
        → Conserves (record u { temp_send_storage = some msg }) msg res s'
        → Passed (u.wire ++ unsent msg) u.pending_userdata_queue u (after_send res s')
    passed failed s' c = record {
      all = quiet_end s' (c.queues.1 ∙ quiet) ∙ c.bytes;
      awake = Ended-IsAwake failed u.disconnected s' s' c.ended tt refl refl refl (λ e. cc);
      userdata = c.queues.2;
      rest = (c.queues.0, c.queues.3, c.queues.4);
    }
    passed blocked s' c = record {
      all = quiet_end s' (c.queues.1 ∙ quiet) ∙ c.bytes;
      awake =
          Ended-IsAwake blocked u.disconnected s' (after_send blocked s') c.ended tt refl refl refl
            (λ _. refl);
      userdata = c.queues.2;
      rest = (c.queues.0, c.queues.3, c.queues.4);
    }
    passed done s' c = record {
      all = quiet_end s' (c.queues.1 ∙ quiet) ∙ c.bytes;
      awake =
          Ended-IsAwake done u.disconnected s' s' c.ended (c.queues.1 ∙ quiet) refl refl refl
            (λ e. cc);
      userdata = c.queues.2;
      rest = (c.queues.0, c.queues.3, c.queues.4);
    }

-- A session with nothing to send takes the first message of the user data queue, if there is one.
userdata_lem :
    (nfn : NetFns) (reach : List ℕ → Bool) (u : Session) (queue : List Outgoing)
    → ObeysSend nfn
    → u.temp_send_storage ≡ none
    → u.pending_ctrl_queue ≡ []
    → u.pending_userdata_queue ≡ queue
    → Returns
        (Passed (stream u ++ next_bytes reach queue) (next_queue reach queue) u)
        (send_userdata nfn reach u queue)
unfolding send_userdata notify_about_disconnect
userdata_lem nfn reach u [] obeys gone quiet same = (
  u,
  refl,
  record {
    all = sym (append-nil _);
    awake = record { idle = λ _. quiet; waiting = λ msg at. absurd (ground (arith, at, gone)) };
    userdata = same;
    rest = (refl, refl, refl);
  },
)
userdata_lem nfn reach u (msg ∷ queue) obeys gone quiet same =
    elim (Bool-cases (reach msg.subject_name)) [
      | inl here ↦
          let (t, run, p) =
            pass_one nfn (record u { pending_userdata_queue = queue }) msg obeys quiet in
          (
            t,
            rw here run,
            rw here (record {
              all = p.all ∙ ap (λ l. l ++ unsent msg) (sym idle_stream);
              awake = p.awake;
              userdata = p.userdata;
              rest = p.rest;
            }),
          )
      | inr away ↦
          let notice = disconnect_notice msg.subject_name in
          let u' = record u {
            pending_userdata_queue = flush queue msg.subject_name;
            pending_ctrl_queue = [];
          } in
          let (t, run, p) = pass_one nfn u' notice obeys refl in
          (
            t,
            rw (away, quiet) run,
            rw away (record {
              all = p.all ∙ ap (λ l. l ++ unsent notice) (sym idle_stream);
              awake = p.awake;
              userdata = p.userdata;
              rest = p.rest;
            }),
          )
    ]
  where
    idle_stream : stream u ≡ u.wire
    idle_stream = quiet_end u quiet ∙ ap (λ x. u.wire ++ unsent_current x) gone ∙ append-nil u.wire

-- A message is still to be sent, in part at least.
abbrev pub IsHeld : Session → Type 0
IsHeld s' = (msg : Outgoing) × (s'.temp_send_storage ≡ some msg)

-- What wt_handle_queued_messages leaves: the user data queue as it was, where a message before it is not
-- sent whole; else its first message is sent or next to be sent.
abbrev pub QueueRead : (List ℕ → Bool) → Session → Session → Type 0
QueueRead reach s s' =
    let before = stream s ++ notice_of reach s.temp_send_storage in
    (IsHeld s' × Passed before s.pending_userdata_queue s s')
    ⊎ Passed (before ++ next_bytes reach s.pending_userdata_queue)
        (next_queue reach s.pending_userdata_queue) s s'

-- Where send_fn takes no more than it is asked to, and the session is awake (the control queue is
-- empty if no message is half sent, and the socket is watched if one is),
-- wt_handle_queued_messages of a connected client keeps the bytes that the client is to get in
-- their order. Unless one of the messages before it is still to be sent in part, it puts the first
-- message of the user data queue behind them and takes it out of the queue; if its sender is gone, a
-- notice takes its place, and the other messages of that sender are dropped. Where a message waits
-- to be sent, the socket is watched for EPOLLOUT.
pub handle_queued-QueueRead :
    (nfn : NetFns) (reach : List ℕ → Bool) (s : Session)
    → ObeysSend nfn
    → IsAwake s
    → s.disconnected ≡ false
    → Returns (QueueRead reach s) (wt_handle_queued_messages nfn reach s)
unfolding wt_handle_queued_messages
handle_queued-QueueRead nfn reach s obeys awake connected =
    let ((res, s'), run, d) = pending_lem nfn reach s s.temp_send_storage obeys awake.idle in
    let (t, run', end) = queued_end res s' d in
    let skip : (b : Bool) → b ≡ false → (x y : Option Session) → (if b then x else y) ≡ y =
      λ b e x y. ap (λ c. if c then x else y) e in
    (t, skip s.disconnected connected (some s) _ ∙ rw run run', end)
  where
    queued_end :
        (res : SendResult) (s' : Session)
        → Delivers (stream s ++ notice_of reach s.temp_send_storage) s res s'
        → Returns (QueueRead reach s) (elim res as (λ _. Option Session) [
          | failed ↦ some s'
          | blocked ↦ some (after_send blocked s')
          | done ↦ send_userdata nfn reach s' s'.pending_userdata_queue
        ])
    queued_end failed s' d = (
      s',
      refl,
      inl (
        d.ended.1,
        record {
          all = d.all;
          awake = Ended-IsAwake failed s.disconnected s' s' d.ended tt refl refl refl (λ e. cc);
          userdata = d.same_userdata;
          rest = d.rest;
        },
      ),
    )
    queued_end blocked s' d = (
      after_send blocked s',
      refl,
      inl (
        d.ended.1,
        record {
          all = d.all;
          awake =
              Ended-IsAwake blocked s.disconnected s' (after_send blocked s') d.ended tt refl refl
                refl (λ _. refl);
          userdata = d.same_userdata;
          rest = d.rest;
        },
      ),
    )
    queued_end done s' d =
        let queue = s.pending_userdata_queue in
        let (t, run, p) =
          subst
            (λ q.
              Returns (Passed (stream s' ++ next_bytes reach queue) (next_queue reach queue) s')
                (send_userdata nfn reach s' q))
            (sym d.same_userdata)
            (userdata_lem nfn reach s' queue obeys d.ended.1 d.drained d.same_userdata) in
        (
          t,
          run,
          inr (record {
            all = p.all ∙ ap (λ l. l ++ next_bytes reach queue) d.all;
            awake = p.awake;
            userdata = p.userdata;
            rest = (p.rest.0 ∙ d.rest.0, p.rest.1 ∙ d.rest.1, p.rest.2 ∙ d.rest.2);
          }),
        )
