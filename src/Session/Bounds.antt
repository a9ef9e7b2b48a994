-- ===== src/Session/Bounds.antt =====
-- wt_handle_inbound_data of server/worker.c returns, and keeps the session in order.
use mathlib.Core.List.{append_assoc, append-nil}
use lwmsg.Base.{
  ℕ, ◌≡◌, ◌⊎◌, inl, inr, refl, sym, ap, subst, ◌∙◌, arith, Bool, true, false, Bool-cases, List, [],
  ◌∷◌, ◌++◌, ◌==◌, if◌then◌else◌, ◌>>=◌, Returns,
}
use lwmsg.Lwmp.{mt_req, HdrValidationStatus, hv_ok, hv_crcerr, lwmp_validate_hdrs, resp_codes}
use lwmsg.Session.{CurrRecvMsg, Outgoing, Session, NetFns, unsent}
use lwmsg.Session.Message.{info_message}
use lwmsg.Session.Outbound.{wt_serve_response}
use lwmsg.Session.Inbound.{
  wt_stop_eblk, wt_stop_border, Server, c_string, cleared, set_storage, relay, str_eq,
  request_response, relayed_pdu, unreachable_message,
}
use lwmsg.Session.Handler.{Result, stop, pdu_served, refused, relay_pdu, accept_pdu, serve_pdu}
use lwmsg.Session.Sending.{stream, ObeysSend}
use lwmsg.Session.Response.{IsAwake, serve_response-stream}
use lwmsg.Session.Filling.{IsSound}

-- Nothing is relayed, or one message to a client that can be reached; the user data queue of the session
-- takes that message if it is for the client itself, and is as before otherwise.
abbrev pub RelaysOver : Server → List (List ℕ × Outgoing) → List Outgoing → Session → Type 0
RelaysOver server relayed queue s' =
    ((s'.relayed ≡ relayed) × (s'.pending_userdata_queue ≡ queue))
    ⊎ ((name : List ℕ) × ((msg : Outgoing) × (server.reach name ≡ true)
          × (s'.relayed ≡ relayed ++ (name, msg) ∷ [])
          × (s'.pending_userdata_queue
              ≡ (if str_eq name server.username then queue ++ msg ∷ [] else queue))))

abbrev pub RelaysOne : Server → Session → Session → Type 0
RelaysOne server s s' = RelaysOver server s.relayed s.pending_userdata_queue s'

-- How a call of wt_handle_inbound_data leaves the session.
pub record Handled (server : Server) (s s' : Session) : Type 0 where
  pub sound : IsSound s'.storage
  pub awake : IsAwake s'
  pub relays : RelaysOne server s s'
  pub replies : (bytes : List ℕ) × (stream s' ≡ stream s ++ bytes)

-- A part of the handler that begins with the session `s`.
abbrev pub Ends : Server → Session → Result → Type 0
Ends server s r = Returns (λ (status, s'). Handled server s s') r

pub cleared-IsSound : IsSound cleared
cleared-IsSound = omega arith

pub if-IsSound :
    (b : Bool) {m m' : CurrRecvMsg} → IsSound m → IsSound m' → IsSound (if b then m else m')
if-IsSound true sound sound' = sound
if-IsSound false sound sound' = sound'

-- The storage after a header that is refused.
status-IsSound :
    (status : HdrValidationStatus)
    → IsSound (elim status [ hv_crcerr ↦ record cleared { is_desynced = true } | _ ↦ cleared ])
status-IsSound hv_crcerr = omega arith
status-IsSound _ = omega arith

-- The storage does not bear on what is sent.
stored-IsAwake : (s : Session) (m : CurrRecvMsg) → IsAwake s → IsAwake (set_storage s m)
stored-IsAwake s m a = record { idle = a.idle; waiting = a.waiting }

pub same-Handled :
    (server : Server) (s : Session) (m : CurrRecvMsg)
    → IsAwake s
    → IsSound m
    → Handled server s (set_storage s m)
same-Handled server s m awake sound = record {
  sound = sound;
  awake = stored-IsAwake s m awake;
  relays = inl (refl, refl);
  replies = ([], sym (append-nil _));
}

-- A response before a part that relays or ends.
pub Handled-after :
    {server : Server} {s s1 s' : Session}
    → ((bytes : List ℕ) × (stream s1 ≡ stream s ++ bytes))
    → s1.pending_userdata_queue ≡ s.pending_userdata_queue
    → s1.relayed ≡ s.relayed
    → Handled server s1 s'
    → Handled server s s'
Handled-after {server} {s} {s1} {s'} (bytes, e) userdata relayed h = record {
  sound = h.sound;
  awake = h.awake;
  relays =
      subst (λ l. RelaysOver server l s.pending_userdata_queue s') relayed
        (subst (λ q. RelaysOver server s1.relayed q s') userdata h.relays);
  replies =
      let (more, e') = h.replies in
      (bytes ++ more, e' ∙ ap (λ l. l ++ more) e ∙ append_assoc (stream s) bytes more);
}

module _ (nfn : NetFns) (server : Server) (send : ObeysSend nfn) where
  -- A response and a part after it.
  pub respond :
      (s : Session) (msg : Outgoing) (next : Session → Result)
      → IsAwake s
      → ((s1 : Session) → IsAwake s1 → s1.storage ≡ s.storage → Ends server s1 (next s1))
      → Ends server s (wt_serve_response nfn s msg >>= next)
  respond s msg next awake go =
      let (s1, run, (bytes, awake1, keeps)) = serve_response-stream nfn s msg send awake in
      let (r, run', h) = go s1 awake1 keeps.0 in
      (r, rw run run', Handled-after (unsent msg, bytes) keeps.1 keeps.2 h)

  pdu_served-Ends : (s : Session) → IsAwake s → IsSound s.storage → Ends server s (pdu_served s)
  unfolding pdu_served
  pdu_served-Ends s awake sound = (
    _,
    refl,
    same-Handled server s _ awake (
        if-IsSound (s.storage.total_msg_data_recved == s.storage.expected_msg_size) cleared-IsSound
          (record { fits = sound.fits; total = sound.total })),
  )

  refused-Ends :
      (status : HdrValidationStatus) (s : Session) → IsAwake s → Ends server s (refused status s)
  unfolding refused
  refused-Ends status s awake = (_, refl, same-Handled server s _ awake (status-IsSound status))

  pub relayed-Handled :
      (s : Session) (m : CurrRecvMsg) (name : List ℕ) (msg : Outgoing)
      → IsAwake s
      → IsSound m
      → server.reach name ≡ true
      → Handled server s (set_storage (relay server s name msg) m)
  unfolding relay
  relayed-Handled s m name msg awake sound here = record {
    sound = sound;
    awake = record { idle = awake.idle; waiting = awake.waiting };
    relays = inr (name, (msg, here, refl, refl));
    replies = ([], sym (append-nil _));
  }

  relay_pdu-Ends :
      (s : Session) → IsAwake s → IsSound s.storage → Ends server s (relay_pdu nfn server s)
  unfolding relay_pdu pdu_served
  relay_pdu-Ends s awake sound =
      let name = c_string s.storage.dest_uname in
      let msg = relayed_pdu server s.storage.recvbuf in
      elim (Bool-cases (server.reach name)) [
        | inl here ↦
            let kept = record (s.storage) { recvbuf = []; not_msg_init_pdu = true } in
            let over = s.storage.total_msg_data_recved == s.storage.expected_msg_size in
            let m = if over then cleared else kept in
            let kept_sound : IsSound kept = record { fits = omega arith; total = sound.total } in
            (
              (wt_stop_border, set_storage (relay server s name msg) m),
              rw here refl,
              relayed-Handled s m name msg awake (if-IsSound over cleared-IsSound kept_sound) here,
            )
        | inr away ↦
            let (r, run, h) =
              respond s (unreachable_message name)
                (λ s1. stop wt_stop_eblk (set_storage s1 cleared)) awake
                (λ s1 awake1 same.
                  (_, refl, same-Handled server s1 cleared awake1 cleared-IsSound)) in
            (r, rw away run, h)
      ]

  accept_pdu-Ends :
      (s : Session) → IsAwake s → IsSound s.storage → Ends server s (accept_pdu nfn server s)
  unfolding accept_pdu
  accept_pdu-Ends s awake sound = elim (Bool-cases (s.storage.msg_type == mt_req)) [
    | inl request ↦
        let (r, run, h) =
          respond s (request_response server s.storage.recvbuf) pdu_served awake
            (λ s1 awake1 same. pdu_served-Ends s1 awake1 (subst IsSound (sym same) sound)) in
        (r, rw request run, h)
    | inr message ↦ let (r, run, h) = relay_pdu-Ends s awake sound in (r, rw message run, h)
  ]

  pub serve_pdu-Ends :
      (s : Session) → IsAwake s → IsSound s.storage → Ends server s (serve_pdu nfn server s)
  unfolding serve_pdu
  serve_pdu-Ends s awake sound =
      let status =
        lwmp_validate_hdrs s.storage.recvbuf tt (c_string s.storage.dest_uname) server.hvfns in
      respond s (info_message (resp_codes status)) _ awake
        (λ s1 awake1 same. served status s1 awake1 (subst IsSound (sym same) sound))
    where
      served :
          (status : HdrValidationStatus) (s1 : Session)
          → IsAwake s1
          → IsSound s1.storage
          → Ends server s1 (elim status as (λ _. Result) [
            | hv_ok ↦ accept_pdu nfn server s1
            | other ↦ refused other s1
          ])
      served hv_ok s1 awake1 sound1 = accept_pdu-Ends s1 awake1 sound1
      served other s1 awake1 sound1 = refused-Ends other s1 awake1
