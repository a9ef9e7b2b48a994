-- ===== src/Session/Delivery.antt =====
-- wt_handle_outbound_data and wt_handle_queued_messages of server/worker.c.
use lwmsg.Base.{
  ℕ, ◌≡◌, inl, inr, refl, ap, ◌∙◌, arith, Bool, true, false, Option, some, List, ◌++◌,
  if◌then◌else◌, Returns,
}
use lwmsg.Session.{Session, NetFns}
use lwmsg.Session.Outbound.{SendResult, failed, blocked, done, wt_handle_outbound_data}
use lwmsg.Session.Sending.{stream, ObeysSend, Ended}
use lwmsg.Session.Response.{IsAwake}
use lwmsg.Session.Control.{KeepsInbound, Drained, Delivers}
use lwmsg.Session.Pending.{notice_of, pending_lem}

-- A session that has ended its sends and watches for EPOLLOUT where one waits.
pub Ended-IsAwake :
    (res : SendResult) (was : Bool) (s' t : Session)
    → Ended res was s'
    → Drained res s'
    → t.temp_send_storage ≡ s'.temp_send_storage
    → t.pending_ctrl_queue ≡ s'.pending_ctrl_queue
    → t.disconnected ≡ s'.disconnected
    → (res ≡ blocked → t.want_out ≡ true)
    → IsAwake t
Ended-IsAwake failed was s' t (dead, (m, at)) drained same queue conn out = record {
  idle = λ none_left. absurd (ground (arith, at, same, none_left));
  waiting = λ msg _. inr (conn ∙ dead);
}
Ended-IsAwake blocked was s' t (_, (m, at)) drained same queue conn out = record {
  idle = λ none_left. absurd (ground (arith, at, same, none_left));
  waiting = λ msg _. inl (out refl);
}
Ended-IsAwake done was s' t (_, gone) drained same queue conn out = record {
  idle = λ _. queue ∙ drained;
  waiting = λ msg at. absurd (ground (arith, at, same, gone));
}

-- What wt_handle_outbound_data leaves.
pub record Resumed (bytes : List ℕ) (s s' : Session) : Type 0 where
  pub all : stream s' ≡ bytes
  pub awake : IsAwake s'
  pub same_userdata : s'.pending_userdata_queue ≡ s.pending_userdata_queue
  pub rest : KeepsInbound s s'

outbound_end :
    (bytes : List ℕ) (s : Session) (res : SendResult) (s' : Session)
    → Delivers bytes s res s'
    → s.want_out ≡ true
    → Returns (Resumed bytes s) (elim res as (λ _. Option Session) [
      | failed ↦ some s'
      | blocked ↦ some s'
      | done ↦ some (record s' { want_out = false; queue_in = true })
    ])
outbound_end bytes s failed s' d out = (
  s',
  refl,
  record {
    all = d.all;
    awake = Ended-IsAwake failed s.disconnected s' s' d.ended tt refl refl refl (λ e. cc);
    same_userdata = d.same_userdata;
    rest = d.rest;
  },
)
outbound_end bytes s blocked s' d out = (
  s',
  refl,
  record {
    all = d.all;
    awake =
        Ended-IsAwake blocked s.disconnected s' s' d.ended tt refl refl refl (λ _. d.flags.0 ∙ out);
    same_userdata = d.same_userdata;
    rest = d.rest;
  },
)
outbound_end bytes s done s' d out =
    let t = record s' { want_out = false; queue_in = true } in
    (
      t,
      refl,
      record {
        all = d.all;
        awake = Ended-IsAwake done s.disconnected s' t d.ended d.drained refl refl refl (λ e. cc);
        same_userdata = d.same_userdata;
        rest = d.rest;
      },
    )

-- Where send_fn takes no more than it is asked to, wt_handle_outbound_data of a connected client,
-- whose socket is watched for EPOLLOUT and whose control queue is empty if no message is half
-- sent, keeps the bytes that the client is to get in their order; only the notice about a sender
-- that is gone is added, at the end. Where a message still waits, the socket stays watched.
pub handle_outbound-Resumed :
    (nfn : NetFns) (reach : List ℕ → Bool) (s : Session)
    → ObeysSend nfn
    → IsAwake s
    → s.disconnected ≡ false
    → s.want_out ≡ true
    → Returns
        (Resumed (stream s ++ notice_of reach s.temp_send_storage) s)
        (wt_handle_outbound_data nfn reach s)
unfolding wt_handle_outbound_data
handle_outbound-Resumed nfn reach s obeys awake connected out =
    let ((res, s'), run, d) = pending_lem nfn reach s s.temp_send_storage obeys awake.idle in
    let (t, run', end) =
      outbound_end (stream s ++ notice_of reach s.temp_send_storage) s res s' d out in
    let skip : (b : Bool) → b ≡ false → (x y : Option Session) → (if b then x else y) ≡ y =
      λ b e x y. ap (λ c. if c then x else y) e in
    (t, skip s.disconnected connected (some s) _ ∙ rw run run', end)
