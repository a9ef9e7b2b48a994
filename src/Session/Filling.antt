-- ===== src/Session/Filling.antt =====
-- The loops over recv_fn in wt_handle_inbound_data of server/worker.c.
use lwmsg.Base.{
  ℕ, zero, suc, ◌+◌, ◌-◌, ◌^◌, ◌≤◌, ◌<◌, ◌≡◌, inl, inr, refl, ap, subst, ◌∙◌, arith, Bool, true,
  false, Bool-cases, List, ◌++◌, ◌==◌, length, length-append, Returns,
}
use lwmsg.Netwrap.{got, RecvWithin, Recv-cases}
use lwmsg.Lwmp.{lwmp_max_pdu_size, lwmp_chunk_buf_size}
use lwmsg.Session.{CurrRecvMsg, Session, NetFns}
use lwmsg.Session.Inbound.{
  store, store_counted, Fill, filled, recv_failed, blocks, called_recv, recv_loop, recv_desynced,
  hdr_missing, hdr_ask, pdu_missing, pdu_ask, chunk_missing, chunk_ask, recv_fuel, data_left, min,
}

-- recv_fn gives at least one byte and no more than it is asked for, or fails or blocks.
abbrev pub ObeysRecv : NetFns → Type 0
ObeysRecv nfn = (k n : ℕ) → RecvWithin n (nfn.recv_fn k n)

-- The buffer holds no more than it can, and the count of received bytes is a 64-bit
-- number.
pub record IsSound (m : CurrRecvMsg) : Type 0 where
  pub fits : length m.recvbuf ≤ lwmp_max_pdu_size
  pub total : m.total_msg_data_recved < 2 ^ 64

-- A loop over recv_fn changes only the storage and the number of calls.
abbrev pub Received : Session → Session → Type 0
Received s s' = s' ≡ record s { storage = s'.storage; recv_calls = s'.recv_calls }

-- How a loop may leave the storage.
pub record Fills (more : CurrRecvMsg → Bool) (s : Session) (fill : Fill) (s' : Session)
    : Type 0 where
  pub sound : IsSound s'.storage
  pub ended : fill ≡ filled → more s'.storage ≡ false
  pub others : Received s s'

module _ (nfn : NetFns) (more : CurrRecvMsg → Bool) (ask : CurrRecvMsg → ℕ)
    (add : CurrRecvMsg → List ℕ → CurrRecvMsg) (obeys : ObeysRecv nfn)
    (grows : (m : CurrRecvMsg) (bytes : List ℕ) → (add m bytes).recvbuf ≡ m.recvbuf ++ bytes)
    (step : (m : CurrRecvMsg) (bytes : List ℕ)
      → IsSound m
      → more m ≡ true
      → length bytes ≤ ask m
      → IsSound (add m bytes)) where
  recv_loop-Fills :
      (fuel : ℕ) (s : Session)
      → IsSound s.storage
      → lwmp_max_pdu_size < fuel + length s.storage.recvbuf
      → Returns (λ (fill, s'). Fills more s fill s') (recv_loop fuel nfn more ask add s)
  unfolding recv_loop
  recv_loop-Fills zero s sound enough = absurd (omega (arith, sound.fits))
  recv_loop-Fills (suc fuel) s sound enough = elim (Bool-cases (more s.storage)) [
    | inr over ↦ (
      (filled, s),
      rw (over, recv_loop) refl,
      record { sound = sound; ended = λ _. over; others = refl },
    )
    | inl on ↦ elim (Recv-cases (nfn.recv_fn s.recv_calls (ask s.storage))) [
      | inl e ↦ (
        (recv_failed, called_recv s),
        rw (on, e, recv_loop) refl,
        record { sound = sound; ended = λ c. cc; others = refl },
      )
      | inr (inl e) ↦ (
        (blocks, called_recv s),
        rw (on, e, recv_loop) refl,
        record { sound = sound; ended = λ c. cc; others = refl },
      )
      | inr (inr (bytes, e)) ↦
          let within : RecvWithin (ask s.storage) (got bytes) =
            subst (RecvWithin (ask s.storage)) e (obeys s.recv_calls (ask s.storage)) in
          let s1 = record (called_recv s) { storage = add s.storage bytes } in
          let longer : length s1.storage.recvbuf ≡ length s.storage.recvbuf + length bytes =
            ap length (grows s.storage bytes) ∙ length-append s.storage.recvbuf bytes in
          let ((fill, s'), run, f) =
            recv_loop-Fills fuel s1 (step s.storage bytes sound on within.1)
              (omega (arith, within.0, longer)) in
          (
            (fill, s'),
            rw (on, e, recv_loop) run,
            record { sound = f.sound; ended = f.ended; others = f.others },
          )
    ]
  ]

-- What a loop asks for fits behind what the buffer holds.
counted_fits :
    (m : CurrRecvMsg) (bytes : List ℕ) (size left : ℕ)
    → length m.recvbuf ≤ size
    → length bytes ≤ min left (size - length m.recvbuf)
    → size ≤ lwmp_max_pdu_size
    → length (m.recvbuf ++ bytes) ≤ lwmp_max_pdu_size
counted_fits m bytes size left below le within = ground (arith, length-append m.recvbuf bytes)

module _ (nfn : NetFns) (obeys : ObeysRecv nfn) (s : Session) (sound : IsSound s.storage) where
  pub hdr-Fills :
      Returns
        (λ (fill, s'). Fills hdr_missing s fill s')
        (recv_loop recv_fuel nfn hdr_missing hdr_ask store s)
  hdr-Fills =
      recv_loop-Fills nfn hdr_missing hdr_ask store obeys (λ m bytes. refl)
        (λ m bytes ok on le. record {
          fits = ground (arith, length-append m.recvbuf bytes);
          total = ok.total;
        })
        recv_fuel s sound (omega arith)

  pub pdu-Fills :
      Returns
        (λ (fill, s'). Fills pdu_missing s fill s')
        (recv_loop recv_fuel nfn pdu_missing pdu_ask store_counted s)
  pdu-Fills =
      recv_loop-Fills nfn pdu_missing pdu_ask store_counted obeys (λ m bytes. refl)
        (λ m bytes ok on le. record {
          fits = counted_fits m bytes lwmp_max_pdu_size (data_left m) ok.fits le (omega arith);
          total = omega arith;
        })
        recv_fuel s sound (omega arith)

  pub chunk-Fills :
      Returns
        (λ (fill, s'). Fills chunk_missing s fill s')
        (recv_loop recv_fuel nfn chunk_missing chunk_ask store_counted s)
  chunk-Fills =
      recv_loop-Fills nfn chunk_missing chunk_ask store_counted obeys (λ m bytes. refl)
        (λ m bytes ok on le. record {
          fits =
              counted_fits m bytes lwmp_chunk_buf_size (data_left m) (ground (arith, on)) le
                (omega arith);
          total = omega arith;
        })
        recv_fuel s sound (omega arith)

-- The loop for a stream out of step keeps to the buffer, and ends.
pub recv_desynced-Received :
    (fuel : ℕ) (nfn : NetFns) (s : Session)
    → ObeysRecv nfn
    → IsSound s.storage
    → lwmp_max_pdu_size < fuel + length s.storage.recvbuf
    → Returns (λ (fill, s'). IsSound s'.storage × Received s s') (recv_desynced fuel nfn s)
unfolding recv_desynced
recv_desynced-Received zero nfn s obeys sound enough = absurd (omega (arith, sound.fits))
recv_desynced-Received (suc fuel) nfn s obeys sound enough =
    let ask = lwmp_max_pdu_size - length s.storage.recvbuf in
    elim (Recv-cases (nfn.recv_fn s.recv_calls ask)) [
      | inl e ↦ ((recv_failed, called_recv s), rw (e, recv_desynced) refl, (sound, refl))
      | inr (inl e) ↦ ((blocks, called_recv s), rw (e, recv_desynced) refl, (sound, refl))
      | inr (inr (bytes, e)) ↦
          let within : RecvWithin ask (got bytes) =
            subst (RecvWithin ask) e (obeys s.recv_calls ask) in
          let longer = length-append s.storage.recvbuf bytes in
          let s1 = record (called_recv s) { storage = store s.storage bytes } in
          let sound1 : IsSound s1.storage = record {
            fits = omega (arith, within.1, longer, sound.fits);
            total = sound.total;
          } in
          elim (Bool-cases (length (s.storage.recvbuf ++ bytes) == lwmp_max_pdu_size)) [
            | inl full ↦ ((filled, s1), rw (e, full, recv_desynced) refl, (sound1, refl))
            | inr room ↦
                let ((fill, s'), run, (sound', rest)) =
                  recv_desynced-Received fuel nfn s1 obeys sound1
                    (omega (arith, within.0, longer)) in
                ((fill, s'), rw (e, room, recv_desynced) run, (sound', rest))
          ]
    ]
