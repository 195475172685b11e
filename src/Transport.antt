-- ===== src/Transport.antt =====
-- src/cq_transport_posix.c: one gopher transaction or one endless stream over a socket. The system's
-- answers to connect, send and recv are scripts; `cq_tx_free` and the UDP log mirror are left out.
pub mod Buffer
pub mod Stream
pub mod Reads
pub mod Poll
pub mod Settles
mod Tests
use casquinha.Prelude.{
  ℕ, zero, suc, ◌+◌, ◌-◌, ◌*◌, Bool, true, false, not, ◌&&◌, ◌||◌, Option, none, some, List, [],
  ◌∷◌, ◌++◌, if◌then◌else◌, Bytes, codes, ltb, leb, ◌==◌, take, drop, length, min,
}
use casquinha.Prelude.Int.{ℤ, pos, negsuc}
use casquinha.Prelude.Decimal.{print_int}
use casquinha.Alloc.{Memory, malloc}

-- `CQ_TX_READ_CHUNK` and `CQ_TX_STREAM_HIWAT`
abbrev pub chunk_size : ℕ
chunk_size = 8192

abbrev pub high_water : ℕ
high_water = 64 * 1024

-- `cq_tx_status` and `cq_tx_error`
pub data Status : Type 0 where
  running done failed : Status

pub data TxError : Type 0 where
  no_error connect_error timeout_error stream_error : TxError

-- `cq_transport`: `data'` holds the `len` bytes in use, and `fd` tells whether the socket is open.
pub record Transport : Type 0 where
  pub host : Bytes
  pub port : ℤ
  pub selector : Bytes
  pub status : Status
  pub error : TxError
  pub message : Bytes
  pub data' : Bytes
  pub cap : ℕ
  pub started : Bool
  pub cancelled : Bool
  pub streaming : Bool
  pub fd : Bool

abbrev pub or_empty : Option Bytes → Bytes
or_empty none = []
or_empty (some s) = s

-- A transaction that has not begun.
unfoldable pub fresh : Option Bytes → ℤ → Option Bytes → Transport
fresh host port selector = record {
  host = or_empty host;
  port = port;
  selector = or_empty selector;
  status = running;
  error = no_error;
  message = [];
  data' = [];
  cap = 0;
  started = false;
  cancelled = false;
  streaming = false;
  fd = false;
}

-- `cq_tx_new`: three requests for memory, and NULL when one is refused.
unfoldable pub new : Memory → Option Bytes → ℤ → Option Bytes → Option Transport × Memory
new m host port selector =
    let (struct, m₀) = malloc m in
    let (host_copy, m₁) = malloc m₀ in
    let (selector_copy, m₂) = malloc m₁ in
    if not struct
    then (none, m₀)
    else if host_copy && selector_copy
    then (some (fresh host port selector), m₂)
    else (none, m₂)

-- `cq_tx_stream_new`
unfoldable pub stream_new : Memory → Option Bytes → ℤ → Option Bytes → Option Transport × Memory
stream_new m host port selector =
    let (created, m') = new m host port selector in
    elim created [ none ↦ (none, m') | some t ↦ (some (record t { streaming = true }), m') ]

-- `fail`
unfoldable pub fail : Transport → TxError → Bytes → Transport
fail t e what = record t {
  status = failed;
  error = e;
  message = take 255 (what ++ b' ' ∷ t.host ++ b':' ∷ print_int t.port ++ b'.' ∷ []);
}

-- `while (ncap < need) ncap *= 2`, on fuel for its rounds.
unfoldable pub double_to : ℕ → ℕ → ℕ → ℕ
double_to zero ncap need = ncap
double_to (suc fuel) ncap need =
    let more = double_to fuel (ncap * 2) need in if ltb ncap need then more else ncap

-- `append`: `none` when the `realloc` is refused.
unfoldable pub append : Memory → Transport → Bytes → Option Transport × Memory
append m t buf =
    let need = length t.data' + length buf in
    let ncap = double_to need (if t.cap == 0 then chunk_size else t.cap) need in
    let (granted, m') = malloc m in
    if ltb t.cap need
    then (if granted then some (record t { data' = t.data' ++ buf; cap = ncap }) else none, m')
    else (some (record t { data' = t.data' ++ buf }), m)

-- What the system answers for one address: `socket`, `connect`, then `select` and `getsockopt`.
pub data Wait : Type 0 where
  expired broken : Wait
  writable : Bool → Wait

pub data Dial : Type 0 where
  no_socket immediate refused : Dial
  in_progress : Wait → Dial

-- `connect_deadline`: `none` is a connected socket.
pub connect_deadline : Dial → Option TxError
connect_deadline no_socket = some connect_error
connect_deadline immediate = none
connect_deadline refused = some connect_error
connect_deadline (in_progress expired) = some timeout_error
connect_deadline (in_progress broken) = some connect_error
connect_deadline (in_progress (writable ok)) = if ok then none else some connect_error

-- The loop over the resolved addresses: the error of the last one is kept.
pub connect_any : TxError → List Dial → Option TxError
connect_any e [] = some e
connect_any e (d ∷ ds) = elim (connect_deadline d) [ none ↦ none | some e' ↦ connect_any e' ds ]

-- What a read returns: bytes, the end of the stream, nothing yet, or an error.
pub data Recv : Type 0 where
  got : Bytes → Recv
  eof would_block broken_pipe : Recv

-- The system's answers: the resolved addresses, the results of `send` (0 for an error; past the end of
-- the script all that is left is sent) and of `recv`.
pub record Net : Type 0 where
  pub dials : Option (List Dial)
  pub sends : List ℕ
  pub recvs : List Recv

-- The loop that writes the line, with what has reached the wire.
pub send_all : List ℕ → Bytes → Bytes → Bool × Bytes
send_all sends wire [] = (true, wire)
send_all [] wire (c ∷ cs) = (true, wire ++ c ∷ cs)
send_all (zero ∷ ws) wire (c ∷ cs) = (false, wire)
send_all (suc w ∷ ws) wire (c ∷ cs) =
    send_all ws (wire ++ take (suc w) (c ∷ cs)) (drop (suc w) (c ∷ cs))

abbrev pub connect_text : TxError → Bytes
connect_text timeout_error = codes "Timed out connecting to"
connect_text _ = codes "Could not connect to"

-- `connect_and_send`: the transaction, the wire, and whether the socket is open.
pub connect_and_send : Memory → Net → Transport → Transport × Bytes × Bool × Memory
connect_and_send m net t = elim net.dials [
  | none ↦ (fail t connect_error (codes "Could not resolve"), [], false, m)
  | some ds ↦ elim (connect_any connect_error ds) [
    | some e ↦ (fail t e (connect_text e), [], false, m)
    | none ↦
        let (granted, m') = malloc m in
        let (sent, wire) = send_all net.sends [] (t.selector ++ 13 ∷ 10 ∷ []) in
        if not granted
        then (fail t stream_error (codes "Out of memory for"), [], false, m')
        else if sent
        then (t, wire, true, m')
        else (fail t stream_error (codes "Write failed to"), wire, false, m')
  ]
]

-- A read error: what has come is delivered, unless nothing has.
abbrev pub read_error : Transport → Transport
read_error t =
    if length t.data' == 0
    then fail t stream_error (codes "Read failed from")
    else record t { status = done }

-- The read loop of `run`; a blocking read that would block has timed out. Past the script's end the
-- peer closes.
pub read_all : List Recv → Memory → Transport → Transport × Memory
read_all [] m t = (record t { status = done }, m)
read_all (eof ∷ rs) m t = (record t { status = done }, m)
read_all (would_block ∷ rs) m t = (read_error t, m)
read_all (broken_pipe ∷ rs) m t = (read_error t, m)
read_all (got b ∷ rs) m t =
    let (grown, m') = append m t b in
    elim grown [
      | none ↦ (fail t stream_error (codes "Out of memory reading from"), m')
      | some t' ↦ read_all rs m' t'
    ]

-- `run`
pub run : Memory → Net → Transport → Transport × Memory
run m net t =
    let (t', wire, open', m') = connect_and_send m net t in
    if open' then read_all net.recvs m' t' else (t', m')

-- `close` and the end of a stream.
abbrev pub closed : Transport → Transport
closed t = record t { fd = false }

-- The loop of `pump_stream` with the script of reads that are left; past its end nothing has come yet,
-- and a read of the closed socket fails.
pub pump_from : List Recv → Memory → Transport → Transport × Memory
pump_from [] m t =
    if leb high_water (length t.data') || t.fd
    then (t, m)
    else (fail t stream_error (codes "Read failed from"), m)
pump_from (r ∷ rs) m t =
    if leb high_water (length t.data')
    then (t, m)
    else if not t.fd
    then (fail t stream_error (codes "Read failed from"), m)
    else elim r [
      | eof ↦ (record (closed t) { status = done }, m)
      | would_block ↦ (t, m)
      | broken_pipe ↦ (fail (closed t) stream_error (codes "Read failed from"), m)
      | got b ↦
          let (grown, m') = append m t b in
          elim grown [
            | some t' ↦ pump_from rs m' t'
            | none ↦
                pump_from rs m' (fail (closed t) stream_error (codes "Out of memory reading from"))
          ]
    ]

-- `pump_stream`
pub pump_stream : Memory → Net → Transport → Transport × Memory
pump_stream m net t =
    let (t', wire, open', m') = connect_and_send m net t in
    if t.fd
    then pump_from net.recvs m t
    else if open'
    then pump_from net.recvs m' (record t' { fd = true })
    else (t', m')

abbrev pub is_running : Status → Bool
is_running running = true
is_running _ = false

-- `cq_tx_start`
pub start : Transport → Transport
start t = record t { started = true }

-- `cq_tx_poll`: the new status stands in the transaction.
pub poll : Memory → Net → Transport → Transport × Memory
poll m net t =
    let due = t.started && is_running t.status in
    let streamed = pump_stream m net t in
    let ran = run m net (record t { started = false }) in
    if t.cancelled
    then (t, m)
    else if t.streaming
    then (if due then streamed else (t, m))
    else if due
    then ran
    else (t, m)

-- `cq_tx_drain`: the transaction, and the bytes that go to the caller.
unfoldable pub drain : Transport → ℕ → Transport × Bytes
drain t cap =
    let n = if ltb (length t.data') cap then length t.data' else cap in
    (record t { data' = drop n t.data' }, take n t.data')

-- `cq_tx_cancel`
pub cancel : Transport → Transport
cancel t = record t { cancelled = true; fd = false }
