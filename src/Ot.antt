-- ===== src/Ot.antt =====
-- src/cq_transport_ot.c: a transaction or a stream over an Open Transport endpoint, advanced by one
-- bounded slice a poll. What Open Transport answers during a poll is a record of scripts.
pub mod Address
pub mod Connect
pub mod Transfer
pub mod Loop
pub mod Sound
pub mod Ends
pub mod Slices
pub mod Sends
pub mod Polls
pub mod Histories
pub mod Outcomes
pub mod Reports
pub mod Deadlines
pub mod Quads
pub mod Udp
pub mod Datagrams
mod Tests
use casquinha.Prelude.Decimal.{decimal}
use casquinha.Prelude.Int.{ℤ}
use casquinha.Alloc.{Memory}
use casquinha.Prelude.{
  ◌/◌, ◌^◌, ◌%◌, ◌*◌, codes, take, some, leb, ◌&&◌, [], if◌then◌else◌, ◌∷◌, false, List, Bool, ◌++◌,
  none, Bytes, Option, ℕ,
}
use casquinha.Transport.{
  done, closed, TxError, new as posix_new, stream_new as posix_stream_new, fail as posix_fail,
  Transport, Status,
}

-- `DEADLINE_TICKS` and `WATCHDOG_TICKS`: 2 and 5 seconds of 60 ticks.
abbrev pub deadline_ticks : ℕ
deadline_ticks = 120

abbrev pub watchdog_ticks : ℕ
watchdog_ticks = 300

-- `ot_state`
pub data State : Type 0 where
  st_init st_connecting st_sending st_receiving st_done st_failed : State

-- What `OTLook` or the notifier reports.
pub data Event : Type 0 where
  no_event t_connect t_disconnect t_ordrel other_event : Event

-- The calls that open, release and close the endpoint.
pub data Call : Type 0 where
  open_endpoint remove_notifier unbind close_provider : Call
  rcv_disconnect rcv_orderly snd_orderly : Call

-- What has passed the endpoint: its calls, the bytes it took, the bytes it delivered, those of them that
-- `cq_tx_drain` handed on, and those for which there was no memory. The source keeps none of these.
pub record Ledger : Type 0 where
  pub calls : List Call
  pub wire : Bytes
  pub received : Bytes
  pub drained : Bytes
  pub refused : Bytes

-- `cq_transport`: `tx` has the fields of the POSIX structure, with `fd` for an endpoint that is not
-- `kOTInvalidEndpointRef` (and `started` without use); `req` with its length.
pub record OtTransport : Type 0 where
  pub tx : Transport
  pub st : State
  pub req : Option Bytes
  pub reqoff : ℕ
  pub start_tick : ℕ
  pub connect_tick : ℕ
  pub async : Bool
  pub conn_event : Event
  pub ledger : Ledger

-- `g_ot_up` and `g_conn_upp`
pub record Globals : Type 0 where
  pub ot_up : Bool
  pub conn_upp : Bool

-- `OTConnect`: kOTNoError, kOTNoDataErr, or another error.
pub data ConnectAnswer : Type 0 where
  connected in_progress rejected : ConnectAnswer

-- `OTSnd`: a number of bytes (all that it was given, when that is fewer), kOTFlowErr, or another error.
pub data Snd : Type 0 where
  took : ℕ → Snd
  flow broken : Snd

-- `OTRcv`: bytes, kOTNoDataErr, kOTLookErr and what `OTLook` then says, or another error.
pub data Rcv : Type 0 where
  got : Bytes → Rcv
  no_data : Rcv
  look : Event → Rcv
  lost : Rcv

-- Open Transport during one poll. `services` is `none` when the resolver cannot be opened or does not
-- know the name. Past the end of `sends` the flow is full, past that of `reads` nothing has come yet.
pub record Provider : Type 0 where
  pub inits : Bool
  pub makes_upp : Bool
  pub opens : Bool
  pub binds : Bool
  pub services : Option ℕ
  pub installs : Bool
  pub connects : ConnectAnswer
  pub looks : Event
  pub accepts : Bool
  pub sends : List Snd
  pub reads : List Rcv

-- `probe_emit`: the line that is logged, when a log is set and the span is long. `unsigned long` has 32
-- bits.
pub probe_emit : Bool → Bytes → ℕ → Option Bytes
probe_emit log name elapsed =
    if log && leb 6 elapsed
    then some (
        take 95 (
          codes "ot-probe: "
          ++ name
          ++ codes " +"
          ++ decimal elapsed
          ++ codes "t ("
          ++ decimal (elapsed * 1000 % 2 ^ 32 / 60)
          ++ codes "ms)"))
    else none

abbrev pub call : Call → OtTransport → OtTransport
call c t = record t { ledger = record t.ledger { calls = t.ledger.calls ++ c ∷ [] } }

-- `ot_teardown` and the assignment after it
pub teardown : OtTransport → OtTransport
teardown t = record (call close_provider (call unbind (call remove_notifier t))) {
  tx = closed t.tx;
}

-- A transaction that `cq_tx_new` returns.
pub ready : Transport → OtTransport
ready t = record {
  tx = t;
  st = st_init;
  req = none;
  reqoff = 0;
  start_tick = 0;
  connect_tick = 0;
  async = false;
  conn_event = no_event;
  ledger = record { calls = []; wire = []; received = []; drained = []; refused = [] };
}

-- `cq_tx_new`, whose fields, copies and checks are those of the POSIX file.
pub new : Memory → Option Bytes → ℤ → Option Bytes → Option OtTransport × Memory
new m host port selector =
    let (created, m') = posix_new m host port selector in
    (elim created [ none ↦ none | some t ↦ some (ready t) ], m')

-- `cq_tx_stream_new`
pub stream_new : Memory → Option Bytes → ℤ → Option Bytes → Option OtTransport × Memory
stream_new m host port selector =
    let (created, m') = posix_stream_new m host port selector in
    (elim created [ none ↦ none | some t ↦ some (ready t) ], m')

-- `fail`
pub fail : OtTransport → TxError → Bytes → OtTransport
fail t e what =
    let t' = record t { tx = posix_fail t.tx e what; st = st_failed } in
    if t.tx.fd then teardown (call snd_orderly t') else t'

-- The end of a transaction that has its answer.
pub finish : OtTransport → OtTransport
finish t = let t' = teardown t in record t' { tx = record t'.tx { status = done }; st = st_done }
