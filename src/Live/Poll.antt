-- ===== src/Live/Poll.antt =====
-- src/os9/casquinha.c: the live poll, the command and the cover of the album, a slice a pass of the
-- loop. What `cq_tx_poll` says of each transaction is an argument.
use casquinha.Prelude.Int.{pattern_of}
use casquinha.Codec.{data_is_jpeg}
use casquinha.Live.Adopt.{adopt_reply}
use casquinha.Live.{pos, sub32, tick_diff, ltb_ℤ, start_command, some, begin, Live}
use casquinha.Alloc.{Memory}
use casquinha.Prelude.{
  ◌++◌, take, ltb, leb, not, some, codes, [], if◌then◌else◌, none, false, ◌&&◌, Bytes, ◌+◌, true,
  Option, ℕ, Bool,
}
use casquinha.Cache
use casquinha.Cache.{Cache}
use casquinha.Debounce
use casquinha.Debounce.{Debounce}
use casquinha.Backoff

-- What `cq_tx_poll` says: still running, done with its bytes, or failed with its message.
pub data Polled : Type 0 where
  still : Polled
  answered : Bytes → Polled
  broke : Bytes → Polled

-- The globals of the loop, with pictures of a type `V`; the four transactions of the lists, the stream
-- address and its fact by whether they are in flight.
pub record Net (V : Type 0) : Type 0 where
  pub live : Live
  pub tx : Option Bytes
  pub covers : Cache V
  pub cover : Option Bytes
  pub cover_req : Bytes
  pub deb : Debounce
  pub cmd_fire : ℕ
  pub suspended : Bool
  pub qt_ok : Bool
  pub search_tx : Bool
  pub queue_tx : Bool
  pub pls_tx : Bool
  pub fact_tx : Bool

-- `PumpTx` of a command or of a poll: the state, and whether the transaction has ended.
unfoldable pub pump_tx : Memory → ℕ → Polled → Bool → Live → (Live × Bool) × Memory
pump_tx m now still is_poll l = ((l, false), m)
pump_tx m now (answered d) is_poll l =
    let (l', m') = adopt_reply m now d (not is_poll) l in
    ((record l' { last_poll = if is_poll then l'.last_poll else now }, true), m')
pump_tx m now (broke msg) is_poll l = (
  (record l { last_msg = take 127 msg; online = false; backoff = Backoff.fail l.backoff }, true),
  m,
)

abbrev one_if : Bool → ℕ
one_if true = 1
one_if false = 0

abbrev pub is_some : Option Bytes → Bool
is_some none = false
is_some (some _) = true

module _ {V : Type 0} where
  -- `TxInFlight`
  unfoldable pub tx_in_flight : Net V → ℕ
  tx_in_flight n =
      one_if (is_some n.tx)
      + one_if (is_some n.live.cmd)
      + one_if (is_some n.cover)
      + one_if (is_some n.live.fire)
      + one_if n.search_tx
      + one_if n.queue_tx
      + one_if n.pls_tx
      + one_if n.fact_tx

  -- The command: it is in flight until its reply has been adopted.
  unfoldable pub pump_cmd : Memory → ℕ → Polled → Net V → Net V × Memory
  pump_cmd m now polled n =
      let ((l, over), m') = pump_tx m now polled false n.live in
      if is_some n.live.cmd
      then (record n { live = if over then record l { cmd = none } else l }, m')
      else (n, m)

  -- The picture of a reply: a JPEG that `DecodeCover` can read.
  unfoldable pub picture : (Bytes → Option V) → Polled → Option V
  picture decode still = none
  picture decode (answered d) = if data_is_jpeg d then decode d else none
  picture decode (broke msg) = none

  -- The cover in flight: whatever its outcome, it is recorded.
  unfoldable pub pump_cover : (Bytes → Option V) → Polled → Net V → Net V
  pump_cover decode still n = n
  pump_cover decode polled n =
      if is_some n.cover
      then record n {
        covers = (Cache.put n.covers (some n.cover_req) (picture decode polled)).0;
        cover = none;
      }
      else n

  -- Whether the cover of an album is to be fetched.
  unfoldable pub wants_cover : Net V → Option Bytes → Bool
  wants_cover n album =
      n.qt_ok
      && n.live.have_snap
      && not (is_some n.cover)
      && not n.suspended
      && ltb (tx_in_flight n) 3
      && is_some album
      && not (Cache.has n.covers album)

  unfoldable pub start_cover : Memory → Net V → Net V × Memory
  start_cover m n =
      let req : Bytes = elim n.live.snap.album_id [ none ↦ [] | some id ↦ take 63 id ] in
      let (t, m') = begin m (codes "/spot/api/1/cover/" ++ req ++ codes "/64") in
      if wants_cover n n.live.snap.album_id
      then (record n { cover_req = req; cover = t }, m')
      else (n, m)

  -- A debounced command that has settled.
  unfoldable pub flush : Memory → ℕ → Net V → Net V × Memory
  flush m now n =
      let (deb', sel) = Debounce.take n.deb in
      let out : Live × Memory = elim sel [
        | none ↦ (n.live, m)
        | some s ↦ start_command m s n.live
      ] in
      if Debounce.has n.deb
        && not (ltb_ℤ (tick_diff now n.cmd_fire) (pos 0))
        && not (is_some n.live.cmd)
      then (record n { deb = deb'; live = out.0 }, out.1)
      else (n, m)

  -- The poll that is due.
  unfoldable pub start_poll : Memory → ℕ → Net V → Net V × Memory
  start_poll m now n =
      let (t, m') = begin m (codes "/spot/api/1/now") in
      let due =
        leb (pattern_of 32 (Backoff.interval_seeded n.live.backoff now))
          (sub32 now n.live.last_poll) in
      if not n.suspended && due
      then (record n { live = record n.live { last_poll = now }; tx = t }, m')
      else (n, m)

  -- The poll in flight, or the next one.
  unfoldable pub pump_poll : Memory → ℕ → Polled → Net V → Net V × Memory
  pump_poll m now polled n =
      let ((l, over), m') = pump_tx m now polled true n.live in
      if is_some n.tx
      then (record n { live = l; tx = if over then none else n.tx }, m')
      else start_poll m now n

  -- `PollNetwork`
  unfoldable pub poll_network :
      (Bytes → Option V) → Memory → ℕ → Polled → Polled → Polled → Net V → Net V × Memory
  poll_network decode m now cmd_says cover_says poll_says n =
      let (n₁, m₁) = pump_cmd m now cmd_says n in
      let (n₂, m₂) = start_cover m₁ (pump_cover decode cover_says n₁) in
      let (n₃, m₃) = flush m₂ now n₂ in pump_poll m₃ now poll_says n₃
