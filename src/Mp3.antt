-- ===== src/Mp3.antt =====
-- src/cq_mp3.c: MPEG Layer III frame headers. A pointer into a buffer with the length from there is
-- the list of the bytes from there on; `int` values stay far below 2 ^ 31.
pub mod Header
pub mod Walk
pub mod Sync
mod Tests
use Prim.Native.Nat.{bit_and}
use casquinha.Prelude.{
  ℕ, zero, suc, ◌+◌, ◌*◌, ◌/◌, ◌%◌, Bool, true, false, not, ◌&&◌, ◌||◌, Option, none, some, List,
  [], ◌∷◌, ◌==◌, if◌then◌else◌, ltb, leb, length, get_or, drop, Bytes,
}

-- `cq_mp3_frame`
pub record Frame : Type 0 where
  pub version : ℕ
  pub bitrate_kbps : ℕ
  pub samplerate : ℕ
  pub channels : ℕ
  pub samples : ℕ
  pub frame_bytes : ℕ

-- `kBitV1`, `kBitV2` and `kRate`
abbrev pub bitrates_v1 : List ℕ
bitrates_v1 =
    0 ∷ 32 ∷ 40 ∷ 48 ∷ 56 ∷ 64 ∷ 80 ∷ 96 ∷ 112 ∷ 128 ∷ 160 ∷ 192 ∷ 224 ∷ 256 ∷ 320 ∷ 0 ∷ []

abbrev pub bitrates_v2 : List ℕ
bitrates_v2 = 0 ∷ 8 ∷ 16 ∷ 24 ∷ 32 ∷ 40 ∷ 48 ∷ 56 ∷ 64 ∷ 80 ∷ 96 ∷ 112 ∷ 128 ∷ 144 ∷ 160 ∷ 0 ∷ []

abbrev pub rates : List ℕ
rates = 44100 ∷ 48000 ∷ 32000 ∷ 0 ∷ []

-- The frame of a header's codes: version, bitrate index, rate index, padding and mode.
unfoldable pub frame_of : ℕ → ℕ → ℕ → ℕ → ℕ → Option Frame
frame_of vbits bidx ridx pad mode =
    let version = if vbits == 3 then 1 else if vbits == 2 then 2 else 25 in
    let bitrate = if version == 1 then get_or bitrates_v1 bidx 0 else get_or bitrates_v2 bidx 0 in
    let rate = get_or rates ridx 0 in
    let rate' = if version == 2 then rate / 2 else rate in
    let rate'' = if version == 25 then rate' / 4 else rate' in
    let samples = if version == 1 then 1152 else 576 in
    let frame_bytes = samples / 8 * (bitrate * 1000) / rate'' + pad in
    if bitrate == 0 || rate == 0
    then none
    else if ltb frame_bytes 4
    then none
    else some (record {
      version = version;
      bitrate_kbps = bitrate;
      samplerate = rate'';
      channels = if mode == 3 then 1 else 2;
      samples = samples;
      frame_bytes = frame_bytes;
    })

-- `cq_mp3_parse`; `x >> k` is `x / 2 ^ k`, and `& 3`, `& 1`, `& 0x0F` are remainders.
unfoldable pub parse : Bytes → Option Frame
parse p =
    let b₀ = get_or p 0 0 in
    let b₁ = get_or p 1 0 in
    let b₂ = get_or p 2 0 in
    let b₃ = get_or p 3 0 in
    let vbits = b₁ / 8 % 4 in
    let lbits = b₁ / 2 % 4 in
    if ltb (length p) 4
    then none
    else if not (b₀ == 0xff) || not (bit_and b₁ 0xe0 == 0xe0)
    then none
    else if vbits == 1 || not (lbits == 1)
    then none
    else frame_of vbits (b₂ / 16 % 16) (b₂ / 4 % 4) (b₂ / 2 % 2) (b₃ / 64 % 4)

-- Two frames of one stream.
abbrev pub agrees : Frame → Frame → Bool
agrees f first = f.version == first.version && f.samplerate == first.samplerate

-- The loop of `cq_mp3_walk`: `rest` is the buffer from `off` on, `rounds` is `max_frames - cnt`, and
-- `first` is set in the first round.
unfoldable pub walk_from : ℕ → Bytes → Option Frame → ℕ → ℕ → ℕ × ℕ
walk_from zero rest first off cnt = (off, cnt)
walk_from (suc rounds) rest first off cnt = elim (parse rest) [
  | none ↦ (off, cnt)
  | some f ↦
      let reference : Frame = elim first [ none ↦ f | some g ↦ g ] in
      let on =
        walk_from rounds (drop f.frame_bytes rest) (some reference) (off + f.frame_bytes)
          (cnt + 1) in
      if ltb (length rest) f.frame_bytes
      then (off, cnt)
      else if not (agrees f reference)
      then (off, cnt)
      else on
]

-- `cq_mp3_walk`: the length of the walked prefix, and the frames in it.
unfoldable pub walk : Bytes → ℕ → ℕ × ℕ
walk buf max_frames = walk_from max_frames buf none 0 0

-- The header that the frame at the start of the buffer predicts confirms it.
unfoldable pub confirms : Bytes → Frame → Bool
confirms buf a = elim (parse (drop a.frame_bytes buf)) [ none ↦ false | some b ↦ agrees b a ]

-- The loop of `cq_mp3_sync` at index `i`, the buffer from there on; -1 is `none`.
unfoldable pub sync_from : ℕ → Bytes → Option (ℕ × Frame)
sync_from i [] = none
sync_from i (c ∷ cs) =
    let later = sync_from (i + 1) cs in
    if ltb (length (c ∷ cs)) 4
    then none
    else if not (c == 0xff)
    then later
    else elim (parse (c ∷ cs)) [
      | none ↦ later
      | some a ↦
          if ltb (length (c ∷ cs)) (a.frame_bytes + 4)
          then none
          else if confirms (c ∷ cs) a
          then some (i, a)
          else later
    ]

-- `cq_mp3_sync`
unfoldable pub sync : Bytes → Option (ℕ × Frame)
sync buf = sync_from 0 buf
