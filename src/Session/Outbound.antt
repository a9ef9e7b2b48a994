-- ===== src/Session/Outbound.antt =====
-- server/worker.c: what is sent to a client that has authenticated.
use lwmsg.Base.{
  ℕ, zero, suc, ◌+◌, Bool, true, false, Ordering, Option, none, some, List, [], ◌∷◌, ◌++◌, ltb,
  ◌==◌, if◌then◌else◌, length, ◌>>=◌,
}
use lwmsg.Netwrap.{send_error, send_block, sent}
use lwmsg.ClHandle.{strncmp}
use lwmsg.Lwmp.{uname_size}
use lwmsg.Session.{
  Outgoing, Session, NetFns, disconnect, send_answer, advance, called_send, sent_whole,
}
use lwmsg.Session.Message.{disconnect_notice}

-- The do-while loop of wt_serve_response.
unfoldable pub serve_loop : ℕ → NetFns → Session → Outgoing → Option Session
serve_loop zero nfn s msg = none
serve_loop (suc fuel) nfn s msg = elim (send_answer nfn s msg) [
  | send_error ↦ some (disconnect (called_send s))
  | send_block ↦ some (record (called_send s) { want_out = true })
  | sent n ↦
      let msg' = record msg { buf_offset = msg.buf_offset + n } in
      let more = serve_loop fuel nfn (advance s msg n) msg' in
      if ltb msg'.buf_offset (length msg.buf) then more else some (sent_whole (advance s msg n))
]

-- `none` is a spent fuel.
unfoldable pub wt_serve_response : NetFns → Session → Outgoing → Option Session
unfolding serve_loop
wt_serve_response nfn s msg = elim s.temp_send_storage [
  | some current ↦ some (record s { pending_ctrl_queue = s.pending_ctrl_queue ++ msg ∷ [] })
  | none ↦ serve_loop (length msg.buf + 1) nfn (record s { temp_send_storage = some msg }) msg
]

-- What send_one_msg answers: ERROR, EBLOCK, or a count.
pub data SendResult : Type 0 where
  failed blocked done : SendResult

-- The loop of send_one_msg for the message of `temp_send_storage`.
unfoldable pub send_loop : ℕ → NetFns → Session → Outgoing → Option (SendResult × Session)
send_loop zero nfn s msg = none
send_loop (suc fuel) nfn s msg =
    let round : Option (SendResult × Session) = elim (send_answer nfn s msg) [
      | send_error ↦ some (failed, disconnect (called_send s))
      | send_block ↦ some (blocked, called_send s)
      | sent n ↦
          send_loop fuel nfn (advance s msg n) (record msg { buf_offset = msg.buf_offset + n })
    ] in
    if ltb msg.buf_offset (length msg.buf) then round else some (done, sent_whole s)

unfoldable pub send_one_msg : NetFns → Session → Outgoing → Option (SendResult × Session)
unfolding send_loop
send_one_msg nfn s msg = send_loop (length msg.buf + 1) nfn s msg

unfoldable pub notify_about_disconnect : Session → List ℕ → Session
notify_about_disconnect s subject_name = record s {
  pending_ctrl_queue = s.pending_ctrl_queue ++ disconnect_notice subject_name ∷ [];
}

-- `reach` says for which names htable_get_cond finds a client that is not disconnected. The check of
-- the sender of the message that is being sent.
unfoldable pub check_sender : (List ℕ → Bool) → Session → Outgoing → Session
unfolding notify_about_disconnect
check_sender reach s msg =
    if length msg.subject_name == 0
    then s
    else if reach msg.subject_name
    then s
    else notify_about_disconnect s msg.subject_name

-- The message of `temp_send_storage`, where there is one.
unfoldable pub send_current : NetFns → (List ℕ → Bool) → Session → Option (SendResult × Session)
unfolding send_one_msg check_sender
send_current nfn reach s = elim s.temp_send_storage [
  | none ↦ some (done, s)
  | some msg ↦ send_one_msg nfn (check_sender reach s msg) msg
]

-- The loop over the queue `ctrl` of the session.
unfoldable pub send_ctrl : NetFns → Session → List Outgoing → Option (SendResult × Session)
unfolding send_one_msg
send_ctrl nfn s [] = some (done, record s { pending_ctrl_queue = [] })
send_ctrl nfn s (msg ∷ ctrl) =
    send_one_msg nfn (record s { pending_ctrl_queue = ctrl; temp_send_storage = some msg }) msg
    >>= (λ (res, s'). elim res [
      | failed ↦ some (failed, s')
      | blocked ↦ some (blocked, s')
      | done ↦ send_ctrl nfn s' ctrl
    ])

-- The sends that wt_handle_outbound_data and wt_handle_queued_messages begin with.
unfoldable pub send_pending : NetFns → (List ℕ → Bool) → Session → Option (SendResult × Session)
unfolding send_current send_ctrl
send_pending nfn reach s = send_current nfn reach s >>= (λ (res, s'). elim res [
  | failed ↦ some (failed, s')
  | blocked ↦ some (blocked, s')
  | done ↦ send_ctrl nfn s' s'.pending_ctrl_queue
])

unfoldable pub wt_handle_outbound_data : NetFns → (List ℕ → Bool) → Session → Option Session
unfolding send_pending
wt_handle_outbound_data nfn reach s =
    if s.disconnected
    then some s
    else send_pending nfn reach s >>= (λ (res, s'). elim res [
      | failed ↦ some s'
      | blocked ↦ some s'
      | done ↦ some (record s' { want_out = false; queue_in = true })
    ])

-- The two calls of epoll_ctl that follow EBLOCK.
abbrev pub after_send : SendResult → Session → Session
after_send failed s = s
after_send done s = s
after_send blocked s = record s { want_out = true; queue_in = false }

-- mpscq_flush_msgs_with_subject.
unfoldable pub flush : List Outgoing → List ℕ → List Outgoing
flush [] subject = []
flush (msg ∷ queue) subject =
    let rest = flush queue subject in
    elim (strncmp uname_size msg.subject_name subject) [ Ordering.eq ↦ rest | _ ↦ msg ∷ rest ]

-- The rest of wt_handle_queued_messages, with the first message of the user data queue. If its sender
-- is gone, the next message of the control queue takes its place.
unfoldable pub send_userdata : NetFns → (List ℕ → Bool) → Session → List Outgoing → Option Session
unfolding send_one_msg flush notify_about_disconnect
send_userdata nfn reach s [] = some s
send_userdata nfn reach s (msg ∷ queue) =
    let send = λ (s' : Session) (m : Outgoing).
      send_one_msg nfn (record s' { temp_send_storage = some m }) m
      >>= (λ (res, s''). some (after_send res s'')) in
    if reach msg.subject_name
    then send (record s { pending_userdata_queue = queue }) msg
    else (let s' = record (notify_about_disconnect s msg.subject_name) {
      pending_userdata_queue = flush queue msg.subject_name;
    } in
        elim s'.pending_ctrl_queue [
          | [] ↦ none
          | notice ∷ ctrl ↦ send (record s' { pending_ctrl_queue = ctrl }) notice
        ])

unfoldable pub wt_handle_queued_messages : NetFns → (List ℕ → Bool) → Session → Option Session
unfolding send_pending send_userdata
wt_handle_queued_messages nfn reach s =
    if s.disconnected
    then some s
    else send_pending nfn reach s >>= (λ (res, s'). elim res [
      | failed ↦ some s'
      | blocked ↦ some (after_send blocked s')
      | done ↦ send_userdata nfn reach s' s'.pending_userdata_queue
    ])
