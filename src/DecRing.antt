-- ===== src/DecRing.antt =====
-- src/cq_decring.c: the compressed ring, the staging buffer and the decode pump, and
-- src/cq_mp3dec.h: what the decoder promises. `unsigned long` and the `long` counters are 32-bit
-- words, as on the PowerPC that runs the program.
pub mod Wrap
pub mod Cursors
pub mod Fifo
pub mod Round
pub mod Gate
pub mod Pump
mod Tests
use casquinha.DecRing.Wrap.{before_wrap, write, wrapped}
use casquinha.Prelude.{
  ℕ, zero, suc, ◌+◌, ◌-◌, ◌*◌, ◌%◌, ◌^◌, ◌≤◌, ◌≡◌, min, Bool, true, false, not, ◌&&◌, Option, none,
  some, Bytes, [], ◌∷◌, List, ◌==◌, if◌then◌else◌, ltb, leb, length, take, drop, ◌++◌, window,
}
use casquinha.Prelude.Int.{ℤ, pos, pos_part}
use casquinha.Mp3.{Frame, walk, sync}

-- `CQ_DECRING_STAGE`, and one decoded frame in bytes: `CQ_MP3DEC_MAX_SAMPLES * 2`.
abbrev pub stage_size : ℕ
stage_size = 64 * 1024

abbrev pub frame_size : ℕ
frame_size = 1152 * 2 * 2

-- Arithmetic of `unsigned long`.
abbrev pub add32 : ℕ → ℕ → ℕ
add32 a b = (a + b) % 2 ^ 32

abbrev pub sub32 : ℕ → ℕ → ℕ
sub32 a b = (a + 2 ^ 32 - b) % 2 ^ 32

-- `cq_decring`: `comp_size` and `pcm_size` are the lengths of the two buffers, `stage` holds the
-- `stage_len` bytes in use, and the PCM cursors stand here beside the ring that they run over.
pub record Ring : Type 0 where
  pub comp : Bytes
  pub comp_wr : ℕ
  pub comp_rd : ℕ
  pub eof : Bool
  pub stage : Bytes
  pub pcm : Bytes
  pub pcm_wr : ℕ
  pub pcm_rd : ℕ
  pub frames : ℕ
  pub resyncs : ℕ
  pub resync_bytes : ℕ
  pub flushes : ℕ
  pub pcm_total : ℕ
  pub dec_time : ℕ

-- `cq_decring_init`
unfoldable pub init : Bytes → Bytes → ℕ → ℕ → Ring
init comp pcm pcm_wr pcm_rd = record {
  comp = comp;
  comp_wr = 0;
  comp_rd = 0;
  eof = false;
  stage = [];
  pcm = pcm;
  pcm_wr = pcm_wr;
  pcm_rd = pcm_rd;
  frames = 0;
  resyncs = 0;
  resync_bytes = 0;
  flushes = 0;
  pcm_total = 0;
  dec_time = 0;
}

-- `cq_decring_space`
unfoldable pub space : Ring → ℕ
space r = sub32 (length r.comp) (sub32 r.comp_wr r.comp_rd)

-- `cq_decring_claim`: the index to write at, and the bytes that fit there.
unfoldable pub claim : Ring → ℕ × ℕ
claim r =
    let wr = r.comp_wr % length r.comp in
    let lin = length r.comp - wr in (wr, if ltb (space r) lin then space r else lin)

-- `cq_decring_commit`
pub commit : Ring → ℕ → Ring
commit r n = record r { comp_wr = add32 r.comp_wr n }

-- What the caller of `cq_decring_claim` does: write into the claimed bytes, then commit.
pub put : Ring → Bytes → Ring
put r bytes = commit (record r { comp = write r.comp (claim r).0 bytes }) (length bytes)

-- `cq_decring_eof`
unfoldable pub close : Ring → Ring
close r = record r { eof = true }

-- `cq_decring_idle`
pub is_idle : Ring → Bool
is_idle r = r.comp_wr == r.comp_rd && length r.stage == 0

-- `cq_decring_reset`
unfoldable pub reset : Ring → Ring
reset r = record r {
  comp_wr = 0;
  comp_rd = 0;
  eof = false;
  stage = [];
  frames = 0;
  resyncs = 0;
  resync_bytes = 0;
  flushes = 0;
  pcm_total = 0;
  dec_time = 0;
}

-- The top-up of `cq_decring_pump`: the ring after it, and whether bytes moved.
pub top_up : Ring → Ring × Bool
top_up r =
    let avail = sub32 r.comp_wr r.comp_rd in
    let room = stage_size - length r.stage in
    let taken = if ltb avail room then avail else room in
    let rd = r.comp_rd % length r.comp in
    let first = before_wrap (length r.comp) rd taken in
    if taken == 0 then (r, false) else (
      record r {
        stage = r.stage ++ window r.comp 0 rd first ++ window r.comp 0 0 (taken - first);
        comp_rd = add32 r.comp_rd taken;
      },
      true,
    )

-- What `cq_mp3dec_frame` returns, with the bytes of the frame buffer.
pub record Decoded : Type 0 where
  pub samples : ℤ
  pub channels : ℕ
  pub consumed : ℤ
  pub sound : Bytes

-- What the pump calls: the decoder (minimp3 and its static state), the injected clock, and the sound
-- interrupt, which may play some bytes before each round.
pub record Env : Type 1 where
  pub World : Type 0
  pub decode : World → Bytes → Decoded × World
  pub now : Option (World → ℕ × World)
  pub played : World → ℕ × World

-- The pump's locals with the ring and the world.
pub record Loop (World : Type 0) : Type 0 where
  pub ring : Ring
  pub used : ℕ
  pub progress : Bool
  pub world : World

-- `break` and `continue`
pub data Turn (World : Type 0) : Type 0 where
  stop : Loop World → Turn World
  again : Loop World → Turn World

-- The bytes that wait in the PCM ring.
pub backlog : Ring → ℕ
backlog r = sub32 r.pcm_wr r.pcm_rd

-- The interrupt advances its cursor by no more than it finds.
pub interrupt : (e : Env) → Loop e.World → Loop e.World
interrupt e l =
    let (n, w) = e.played l.world in
    let r = l.ring in
    record l { ring = record r { pcm_rd = add32 r.pcm_rd (min n (backlog r)) }; world = w }

-- The decoder's call between two readings of the clock, when there is one.
pub timed : (e : Env) → e.World → Ring → Bytes → Decoded × Ring × e.World
timed e w r bytes = elim e.now [
  | none ↦ let (d, w') = e.decode w bytes in (d, r, w')
  | some now ↦
      let (t₀, w₀) = now w in
      let (d, w₁) = e.decode w₀ bytes in
      let (t₁, w₂) = now w₁ in
      (d, record r { dec_time = (r.dec_time + (t₁ + 2 ^ 64 - t₀) % 2 ^ 64) % 2 ^ 64 }, w₂)
]

-- One decoded frame goes into the PCM ring.
pub emit : Ring → Decoded → Ring
emit r d =
    let bytes = pos_part d.samples * d.channels * 2 in
    let wr = r.pcm_wr % length r.pcm in
    let first = before_wrap (length r.pcm) wr bytes in
    let sound = take bytes d.sound in
    record r {
      frames = add32 r.frames 1;
      pcm = write (write r.pcm wr (take first sound)) 0 (drop first sound);
      pcm_wr = add32 r.pcm_wr bytes;
      pcm_total = add32 r.pcm_total bytes;
    }

-- The gate holds the head of the stage: resynchronize when the stage is deep.
pub realign : {W : Type 0} → Loop W → Turn W
realign l =
    let r = l.ring in
    if ltb 8192 (length r.stage - l.used)
    then elim (sync (drop l.used r.stage)) [
      | none ↦
          stop (record l { ring = record r { flushes = add32 r.flushes 1 }; used = length r.stage })
      | some (off, f) ↦
          if off == 0
          then stop l
          else again (record l {
            ring = record r {
              resyncs = add32 r.resyncs 1;
              resync_bytes = add32 r.resync_bytes off;
            };
            used = l.used + off;
          })
    ]
    else stop l

-- What the decoder made of the rest of the stage.
pub digest : {W : Type 0} → Loop W → Decoded × Ring × W → Turn W
digest l (d, r, w) =
    if pos_part d.consumed == 0
    then stop (record l { ring = r; world = w })
    else again (record {
      ring = if pos_part d.samples == 0 then r else emit r d;
      used = l.used + pos_part d.consumed;
      progress = true;
      world = w;
    })

-- The gate: too few whole frames stand at the head of the rest of the stage.
pub held : Ring → ℕ → Bool
held r used = ltb (walk (drop used r.stage) 2).1 (if r.eof then 1 else 2)

-- One round of the decode loop.
pub turn : (e : Env) → Loop e.World → Turn e.World
turn e l =
    let r = l.ring in
    if ltb (sub32 (length r.pcm) (backlog r)) frame_size
    then stop l
    else if leb (length r.stage) l.used
    then stop l
    else if held r l.used
    then realign l
    else digest l (timed e l.world r (drop l.used r.stage))

-- The decode loop, on fuel for its rounds.
pub run : (e : Env) → ℕ → Loop e.World → Option (Loop e.World)
run e zero l = none
run e (suc fuel) l = elim (turn e (interrupt e l)) [ stop l' ↦ some l' | again l' ↦ run e fuel l' ]

-- The compaction of the stage: `memmove` of what is left.
pub compact : {W : Type 0} → Loop W → Bool × Ring × W
compact l = let r = l.ring in (l.progress, record r { stage = drop l.used r.stage }, l.world)

-- `cq_decring_pump`: the progress that it reports, the ring and the world; one round for each byte of
-- the stage and one more.
pub pump : (e : Env) → e.World → Ring → Option (Bool × Ring × e.World)
pump e w r =
    let (r', moved) = top_up r in
    elim (run e (suc (length r'.stage))
      (record { ring = r'; used = 0; progress = moved; world = w })) [
        | none ↦ none
        | some l ↦ some (compact l)
      ]
