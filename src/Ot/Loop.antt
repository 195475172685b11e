-- ===== src/Ot/Loop.antt =====
-- src/cq_transport_ot.c: what the event loop calls.
use casquinha.Ot.Transfer.{pump_recv, pump_send}
use casquinha.Ot.Connect.{pump_connect, open_and_connect}
use casquinha.Alloc.{Memory}
use casquinha.Ot.{
  watchdog_ticks, fail, deadline_ticks, st_connecting, st_receiving, st_init, st_sending, st_done,
  st_failed, snd_orderly, call, Call, teardown, Globals, Provider, OtTransport, State,
}
use casquinha.Prelude.{
  codes, ◌++◌, ltb, not, true, false, ◌&&◌, ◌||◌, if◌then◌else◌, Bool, List, Bytes, ◌%◌, ◌-◌, ◌^◌,
  ◌+◌, ℕ,
}
use casquinha.Transport.{timeout_error, is_running, drain as posix_drain}

-- `cq_tx_start`
unfoldable pub start : OtTransport → ℕ → OtTransport
start t tick = record t { start_tick = tick; connect_tick = tick }

-- A difference of `TickCount`s, in 32 bits.
abbrev pub ticks_since : ℕ → ℕ → ℕ
ticks_since now t₀ = (now + (2 ^ 32 - t₀)) % 2 ^ 32

-- The slice of one poll.
unfoldable pub slice :
    Memory → Provider → Globals → OtTransport → State → OtTransport × Globals × Memory
slice m p g t st_init = let (t', g') = open_and_connect p g t in (t', g', m)
slice m p g t st_connecting = (pump_connect p t, g, m)
slice m p g t st_sending = let (t', m') = pump_send m p t in (t', g, m')
slice m p g t st_receiving = let (t', m') = pump_recv p.reads m t in (t', g, m')
slice m p g t st_done = (t, g, m)
slice m p g t st_failed = (t, g, m)

abbrev pub is_connecting : State → Bool
is_connecting st_connecting = true
is_connecting _ = false

abbrev pub is_receiving : State → Bool
is_receiving st_receiving = true
is_receiving _ = false

-- The two deadlines, after the slice.
unfoldable pub check_time : ℕ → OtTransport → OtTransport
check_time now t =
    if not (is_running t.tx.status)
    then t
    else if is_connecting t.st && ltb deadline_ticks (ticks_since now t.connect_tick)
    then fail t timeout_error (codes "Timed out connecting to")
    else if not (t.tx.streaming && is_receiving t.st)
        && ltb watchdog_ticks (ticks_since now t.start_tick)
    then fail t timeout_error (codes "Timed out talking to")
    else t

-- `cq_tx_poll`: the new status stands in the transaction.
unfoldable pub poll : Memory → Provider → Globals → ℕ → OtTransport → OtTransport × Globals × Memory
poll m p g now t =
    let (t', g', m') = slice m p g t t.st in
    if t.tx.cancelled || not (is_running t.tx.status)
    then (t, g, m)
    else (check_time now t', g', m')

-- `cq_tx_drain`, which is that of the POSIX file.
unfoldable pub drain : OtTransport → ℕ → OtTransport × Bytes
drain t cap =
    let (tx', out) = posix_drain t.tx cap in
    (record t { tx = tx'; ledger = record t.ledger { drained = t.ledger.drained ++ out } }, out)

-- `cq_tx_cancel`
unfoldable pub cancel : OtTransport → OtTransport
cancel t =
    let t' = record t { tx = record t.tx { cancelled = true } } in
    if t.tx.fd then teardown (call snd_orderly t') else t'

-- `cq_tx_free`: the calls that are left to make.
unfoldable pub free : OtTransport → List Call
free t = if t.tx.fd then (teardown t).ledger.calls else t.ledger.calls
