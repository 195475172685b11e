-- ===== src/Ot/Transfer.antt =====
-- src/cq_transport_ot.c: sending the line and receiving the answer.
use casquinha.Alloc.{malloc, Memory}
use casquinha.Ot.{
  got, took, flow, broken, no_data, look, lost, rcv_disconnect, rcv_orderly, snd_orderly, t_ordrel,
  t_disconnect, st_receiving, fail, call, Provider, finish, Event, Snd, OtTransport, Rcv,
}
use casquinha.Prelude.{
  take, min, codes, ◌+◌, ◌++◌, ltb, leb, none, some, drop, length, Option, ◌&&◌, if◌then◌else◌,
  Bytes, [], ◌∷◌, List, ℕ,
}
use casquinha.Transport.{stream_error, high_water, append as posix_append}

-- `append`, which is that of the POSIX file.
unfoldable pub append : Memory → OtTransport → Bytes → Option OtTransport × Memory
append m t buf =
    let (grown, m') = posix_append m t.tx buf in
    (elim grown [ none ↦ none | some tx' ↦ some (record t { tx = tx' }) ], m')

-- `OTRcv` has delivered a chunk, and there is no memory for one.
abbrev pub delivered : Bytes → OtTransport → OtTransport
delivered buf t = record t { ledger = record t.ledger { received = t.ledger.received ++ buf } }

abbrev pub dropped : Bytes → OtTransport → OtTransport
dropped buf t = record t { ledger = record t.ledger { refused = t.ledger.refused ++ buf } }

-- `OTSnd` has taken `n` bytes of the rest of the line.
unfoldable pub sent : ℕ → Bytes → OtTransport → OtTransport
sent n rest t = record t {
  reqoff = t.reqoff + min n (length rest);
  ledger = record t.ledger { wire = t.ledger.wire ++ take n rest };
}

-- The loop of `pump_send` over the answers that are left.
unfoldable pub send_from : List Snd → Bytes → OtTransport → OtTransport
send_from [] line t = if ltb t.reqoff (length line) then t else record t { st = st_receiving }
send_from (took n ∷ ss) line t =
    let more = send_from ss line (sent n (drop t.reqoff line) t) in
    if ltb t.reqoff (length line) then more else record t { st = st_receiving }
send_from (flow ∷ ss) line t =
    if ltb t.reqoff (length line) then t else record t { st = st_receiving }
send_from (broken ∷ ss) line t =
    if ltb t.reqoff (length line)
    then fail t stream_error (codes "Write failed to")
    else record t { st = st_receiving }

-- `pump_send`
unfoldable pub pump_send : Memory → Provider → OtTransport → OtTransport × Memory
pump_send m p t =
    let (granted, m') = malloc m in
    let line = t.tx.selector ++ 13 ∷ 10 ∷ [] in
    elim t.req [
      | some r ↦ (send_from p.sends r t, m)
      | none ↦
          if granted
          then (send_from p.sends line (record t { req = some line; reqoff = 0 }), m')
          else (fail t stream_error (codes "Out of memory for"), m')
    ]

-- The connection is gone: what has come is delivered, unless nothing has.
unfoldable pub give_up : (OtTransport → OtTransport) → OtTransport → OtTransport
give_up before t =
    if ltb 0 (length t.tx.data')
    then finish (before t)
    else fail t stream_error (codes "Read failed from")

-- `OTLook` after kOTLookErr
unfoldable pub recv_look : Event → OtTransport → OtTransport
recv_look t_ordrel t = finish (call snd_orderly (call rcv_orderly t))
recv_look t_disconnect t = give_up (λ t'. t') (call rcv_disconnect t)
recv_look _ t = t

-- The loop of `pump_recv` over the answers that are left; 0 bytes count as an error.
unfoldable pub pump_recv : List Rcv → Memory → OtTransport → OtTransport × Memory
pump_recv [] m t = (t, m)
pump_recv (r ∷ rs) m t =
    if t.tx.streaming && leb high_water (length t.tx.data') then (t, m) else elim r [
      | got [] ↦ (give_up (call snd_orderly) t, m)
      | got (c ∷ cs) ↦
          let t₀ = delivered (c ∷ cs) t in
          let (grown, m') = append m t₀ (c ∷ cs) in
          elim grown [
            | some t' ↦ pump_recv rs m' t'
            | none ↦
                (fail (dropped (c ∷ cs) t₀) stream_error (codes "Out of memory reading from"), m')
          ]
      | no_data ↦ (t, m)
      | look e ↦ (recv_look e t, m)
      | lost ↦ (give_up (call snd_orderly) t, m)
    ]
