-- ===== src/Audio.antt =====
-- os9/casquinha.c: the two ends of the decode pipeline in the app, the feeder from the wire and the
-- sound interrupt, and below them the state machine of a listen. The interrupt's ring is the PCM ring
-- of the pipeline.
pub mod Ends
pub mod Listen
pub mod Service
pub mod Handing
pub mod Listens
pub mod Frames
pub mod Passes
mod Tests
use casquinha.Prelude.{
  ℕ, zero, suc, ◌+◌, ◌-◌, ◌*◌, ◌%◌, ◌^◌, min, Bool, true, false, not, ◌&&◌, Option, none, some,
  List, [], ◌∷◌, ◌++◌, if◌then◌else◌, Bytes, ltb, leb, ◌==◌, length, window, replicate,
}
use casquinha.Prelude.Int.{ℤ, pos, pos_part}
use casquinha.DecRing.Wrap.{before_wrap}
use casquinha.DecRing.{Ring, add32, backlog, claim, put}
use casquinha.Transport.{Transport, drain}

-- `CQ_AUD_CHUNK`
abbrev pub audio_chunk : ℕ
audio_chunk = 32 * 1024

-- The loop of `DrainStreamToDec`, on fuel for its rounds: the ring, the stream and `gRxTotal`.
pub feed : ℕ → Ring → Transport → ℕ → Option (Ring × Transport × ℕ)
feed zero r t rx_total = none
feed (suc fuel) r t rx_total =
    let contig = (claim r).1 in
    let (t', bytes) = drain t contig in
    let on = feed fuel (put r bytes) t' (add32 rx_total (length bytes)) in
    if contig == 0
    then some (r, t, rx_total)
    else if length bytes == 0
    then some (r, t', rx_total)
    else on

-- `DrainStreamToDec`: a round for each buffered byte and one more.
pub drain_stream : Ring → Transport → ℕ → Option (Ring × Transport × ℕ)
drain_stream r t rx_total = feed (suc (length t.data')) r t rx_total

-- What the interrupt reads and writes beside the ring.
pub record Output : Type 0 where
  pub ring : Ring
  pub skip : ℤ
  pub fires : ℕ
  pub silences : ℕ

-- The latency trim: `gRingSkip` bytes are passed over.
pub trim : Output → Output
trim o =
    let r = o.ring in
    let s = min (pos_part o.skip) (backlog r) in
    if pos_part o.skip == 0
    then o
    else record o { ring = record r { pcm_rd = add32 r.pcm_rd s }; skip = pos 0 }

-- The bytes that a refill takes: a whole chunk, or the tail of a dead stream, or none.
pub refill : Bool → ℕ → ℕ
refill stream avail =
    if leb audio_chunk avail then audio_chunk else if not stream && ltb 0 avail then avail else 0

-- `AudioDoubleBack`, with the bytes of the hardware buffer.
pub double_back : Bool → Output → Output × Bytes
double_back stream o =
    let o' = trim (record o { fires = add32 o.fires 1 }) in
    let r = o'.ring in
    let taken = refill stream (backlog r) in
    let rd = r.pcm_rd % length r.pcm in
    let first = before_wrap (length r.pcm) rd taken in
    (
      record o' {
        ring = record r { pcm_rd = add32 r.pcm_rd taken };
        silences = if taken == 0 then add32 o'.silences 1 else o'.silences;
      },
      window r.pcm 0 rd first
          ++ window r.pcm 0 0 (taken - first)
          ++ replicate (audio_chunk - taken) 0,
    )
