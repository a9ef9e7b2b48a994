-- ===== src/Session/Calls.antt =====
-- A call of wt_handle_inbound_data of server/worker.c.
use mathlib.Core.List.{append-nil}
use lwmsg.Base.{
  ℕ, ◌≤◌, ◌≡◌, inl, inr, refl, sym, ap, subst, ◌∙◌, arith, Bool, true, Bool-cases, Option, List, [],
  ◌∷◌, leb, ◌==◌, ◌||◌, ◌&&◌, if◌then◌else◌, length, Returns,
}
use lwmsg.Lwmp.{lwmp_max_pdu_size}
use lwmsg.Session.{CurrRecvMsg, Session, NetFns, disconnect}
use lwmsg.Session.Inbound.{
  wt_dconn, wt_stop_eblk, wt_stop_border, Server, c_string, cleared, Fill, filled, recv_failed,
  blocks, set_storage, relay, relayed_chunk, unreachable_message, read_header,
}
use lwmsg.Session.Handler.{Result, stop, after_fill, serve_pdu, first_pdu, relay_chunk, next_chunk}
use lwmsg.Session.Sending.{stream, ObeysSend}
use lwmsg.Session.Response.{IsAwake}
use lwmsg.Session.Bounds.{
  Handled, Ends, Handled-after, same-Handled, if-IsSound, cleared-IsSound, respond, relayed-Handled,
  serve_pdu-Ends,
}
use lwmsg.Lwmp.Resync.{first_candidate}
use lwmsg.Session.Filling.{IsSound, ObeysRecv, Fills, Received, hdr-Fills, pdu-Fills, chunk-Fills}

-- A loop over recv_fn keeps all that is sent and queued.
pub Received-IsAwake : (s s1 : Session) → Received s s1 → IsAwake s → IsAwake s1
Received-IsAwake s s1 others awake =
    subst IsAwake (sym others) (record { idle = awake.idle; waiting = awake.waiting })

pub Received-Handled :
    {server : Server} (s s1 : Session) {s' : Session}
    → Received s s1
    → Handled server s1 s'
    → Handled server s s'
Received-Handled s s1 others h =
    Handled-after ([], ap stream others ∙ sym (append-nil _))
      (ap (λ t. t.pending_userdata_queue) others) (ap (λ t. t.relayed) others) h

-- A client that recv_fn fails for is released.
pub dropped-Handled :
    (server : Server) (s : Session)
    → IsAwake s
    → IsSound s.storage
    → Handled server s (disconnect s)
dropped-Handled server s awake sound = record {
  sound = sound;
  awake = record { idle = awake.idle; waiting = λ msg at. inr refl };
  relays = inl (refl, refl);
  replies = ([], sym (append-nil _));
}

pub length-first_candidate : (buf : List ℕ) → length (first_candidate buf) ≤ length buf
unfolding first_candidate
length-first_candidate [] = omega arith
length-first_candidate (x ∷ buf) = ground (arith, length-first_candidate buf)

-- A test whose value is known.
pub choose : (b c : Bool) → b ≡ c → (x y : Result) → (if b then x else y) ≡ (if c then x else y)
choose b c e x y = ap (λ d. if d then x else y) e

module _ (nfn : NetFns) (server : Server) (send : ObeysSend nfn) (obeys : ObeysRecv nfn) where
  pub after_fill-Ends :
      {more : CurrRecvMsg → Bool} {r : Option (Fill × Session)} (s : Session)
      (next : Session → Result)
      → IsAwake s
      → Returns (λ (fill, s1). Fills more s fill s1) r
      → ((s1 : Session) → IsAwake s1 → IsSound s1.storage → Ends server s1 (next s1))
      → Ends server s (after_fill r next)
  after_fill-Ends s next awake ((fill, s1), run, f) go =
      let awake1 = Received-IsAwake s s1 f.others awake in
      let (r, run', h) = ended fill awake1 in (r, rw run run', Received-Handled s s1 f.others h)
    where
      ended :
          (fill : Fill)
          → IsAwake s1
          → Ends server s1 (elim fill as (λ _. Result) [
            | recv_failed ↦ stop wt_dconn (disconnect s1)
            | blocks ↦ stop wt_stop_eblk s1
            | filled ↦ next s1
          ])
      ended recv_failed awake1 = (_, refl, dropped-Handled server s1 awake1 f.sound)
      ended blocks awake1 = (_, refl, same-Handled server s1 s1.storage awake1 f.sound)
      ended filled awake1 = go s1 awake1 f.sound

  read_header-IsSound : (m : CurrRecvMsg) → IsSound m → IsSound (read_header m)
  unfolding read_header
  read_header-IsSound m sound =
      if-IsSound (m.msg_type == 0 && m.expected_msg_size == 0)
        (record { fits = sound.fits; total = omega (arith, sound.fits) }) sound

  pub first_pdu-Ends :
      (s : Session) → IsAwake s → IsSound s.storage → Ends server s (first_pdu nfn server s)
  unfolding first_pdu
  first_pdu-Ends s awake sound =
      after_fill-Ends s _ awake (hdr-Fills nfn obeys s sound) (λ s1 awake1 sound1.
        let s2 = set_storage s1 (read_header s1.storage) in
        let awake2 : IsAwake s2 = record { idle = awake1.idle; waiting = awake1.waiting } in
        let sound2 = read_header-IsSound s1.storage sound1 in
        let (r, run, h) = after_fill-Ends s2 _ awake2 (pdu-Fills nfn obeys s2 sound2) received in
        (r, run, Handled-after ([], sym (append-nil _)) refl refl h))
    where
      received :
          (s3 : Session)
          → IsAwake s3
          → IsSound s3.storage
          → Ends server s3 (
              if leb s3.storage.expected_msg_size s3.storage.total_msg_data_recved
                || length s3.storage.recvbuf == lwmp_max_pdu_size
              then serve_pdu nfn server s3
              else stop wt_stop_border s3)
      received s3 awake3 sound3 =
          elim (Bool-cases (
            leb s3.storage.expected_msg_size s3.storage.total_msg_data_recved
            || length s3.storage.recvbuf == lwmp_max_pdu_size)) [
              | inl whole ↦
                  let (r, run, h) = serve_pdu-Ends nfn server send s3 awake3 sound3 in
                  (r, rw whole run, h)
              | inr part ↦ (
                (wt_stop_border, s3),
                rw part refl,
                same-Handled server s3 s3.storage awake3 sound3,
              )
            ]

  relay_chunk-Ends :
      (s : Session) → IsAwake s → IsSound s.storage → Ends server s (relay_chunk nfn server s)
  unfolding relay_chunk
  relay_chunk-Ends s awake sound =
      let name = c_string s.storage.dest_uname in
      let msg = relayed_chunk server s.storage.recvbuf in
      elim (Bool-cases (server.reach name)) [
        | inl here ↦
            let kept = record (s.storage) { recvbuf = [] } in
            let over = s.storage.expected_msg_size == s.storage.total_msg_data_recved in
            let m = if over then cleared else kept in
            let kept_sound : IsSound kept = record { fits = omega arith; total = sound.total } in
            (
              (wt_stop_border, set_storage (relay server s name msg) m),
              rw here refl,
              relayed-Handled nfn server send s m name msg awake
                  (if-IsSound over cleared-IsSound kept_sound) here,
            )
        | inr away ↦
            let m = record cleared { is_desynced = true } in
            let (r, run, h) =
              respond nfn server send s (unreachable_message name)
                (λ s1. stop wt_stop_eblk (set_storage s1 m)) awake
                (λ s1 awake1 same. (_, refl, same-Handled server s1 m awake1 (omega arith))) in
            (r, rw away run, h)
      ]

  pub next_chunk-Ends :
      (s : Session) → IsAwake s → IsSound s.storage → Ends server s (next_chunk nfn server s)
  unfolding next_chunk
  next_chunk-Ends s awake sound =
      after_fill-Ends s (relay_chunk nfn server) awake (chunk-Fills nfn obeys s sound)
        relay_chunk-Ends
