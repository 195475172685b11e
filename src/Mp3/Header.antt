-- ===== src/Mp3/Header.antt =====
-- What a valid header can say.
use casquinha.Prelude.{
  dec_lt, ◌≢◌, ℕ, zero, suc, ◌/◌, ◌%◌, ◌<◌, ◌≤◌, Bool, true, not, ◌&&◌, ◌||◌, Option, none, some,
  ◌==◌, leb, length, get_or, Bytes, ◌≡◌, refl, arith, ◌⊎◌,
}
use casquinha.Mp3.{Frame, frame_of, parse}

-- A test of codes that holds for each code of a field with `codes_of` values.
every_code : (ℕ → Bool) → ℕ → Bool
every_code test zero = true
every_code test (suc last) = every_code test last && test last

code_of_every :
    (test : ℕ → Bool) (codes_of code : ℕ)
    → code < codes_of
    → every_code test codes_of ≡ true
    → test code ≡ true
unfolding every_code
code_of_every test zero code lt all = absurd (omega arith)
code_of_every test (suc last) code lt all = elim (dec_lt code last) [
  | yes earlier ↦ code_of_every test last code earlier (ground arith)
  | no later ↦ let e : code ≡ last = omega arith in rw e (ground arith)
]

-- The ranges of a frame's fields.
pub record IsFrame (f : Frame) : Type 0 where
  pub long_enough : 24 ≤ f.frame_bytes
  pub short_enough : f.frame_bytes ≤ 1441
  pub rate_low : 8000 ≤ f.samplerate
  pub rate_high : f.samplerate ≤ 48000
  pub bitrate_low : 8 ≤ f.bitrate_kbps
  pub bitrate_high : f.bitrate_kbps ≤ 320
  pub channels : (f.channels ≡ 1) ⊎ (f.channels ≡ 2)
  pub samples : (f.samples ≡ 1152) × (f.version ≡ 1) ⊎ (f.samples ≡ 576) × (f.version ≢ 1)

in_range : Option Frame → Bool
in_range none = true
in_range (some f) =
    leb 24 f.frame_bytes
    && leb f.frame_bytes 1441
    && leb 8000 f.samplerate
    && leb f.samplerate 48000
    && leb 8 f.bitrate_kbps
    && leb f.bitrate_kbps 320
    && (f.channels == 1 || f.channels == 2)
    && (f.samples == 1152 && f.version == 1 || f.samples == 576 && not (f.version == 1))

check : ℕ → ℕ → ℕ → ℕ → ℕ → Bool
unfolding in_range frame_of
check m v b r p = in_range (frame_of v b r p m)

-- The test over every padding, then over every rate, bitrate and version as well.
any_padding : ℕ → ℕ → ℕ → ℕ → Bool
unfolding every_code check
any_padding m v b r = every_code (check m v b r) 2

any_rate : ℕ → ℕ → ℕ → Bool
unfolding every_code any_padding
any_rate m v b = every_code (any_padding m v b) 4

any_bitrate : ℕ → ℕ → Bool
unfolding every_code any_rate
any_bitrate m v = every_code (any_rate m v) 16

any_version : ℕ → Bool
unfolding every_code any_bitrate
any_version m = every_code (any_bitrate m) 4

all_codes_lem : every_code any_version 4 ≡ true
unfolding every_code any_version
all_codes_lem = refl

in_range-IsFrame : (f : Frame) → in_range (some f) ≡ true → IsFrame f
unfolding in_range
in_range-IsFrame f h = ground arith

frame_of-in_range :
    (v b r p m : ℕ) → v < 4 → b < 16 → r < 4 → p < 2 → m < 4 → in_range (frame_of v b r p m) ≡ true
unfolding any_version any_bitrate any_rate any_padding check
frame_of-in_range v b r p m hv hb hr hp hm = code_of_every (check m v b r) 2 p hp (
    code_of_every (any_padding m v b) 4 r hr (
      code_of_every (any_rate m v) 16 b hb
        (code_of_every (any_bitrate m) 4 v hv (code_of_every any_version 4 m hm all_codes_lem))))

-- Every header that is accepted has a frame of 24 to 1441 bytes, a rate of 8 to 48 kHz, a bitrate of
-- 8 to 320 kbps, one or two channels, and 1152 samples in MPEG 1 and 576 otherwise.
pub parse-IsFrame : (p : Bytes) (f : Frame) → parse p ≡ some f → IsFrame f
unfolding parse
parse-IsFrame p f h = in_range-IsFrame f (
    ground (
      arith,
      frame_of-in_range (get_or p 1 0 / 8 % 4) (get_or p 2 0 / 16 % 16) (get_or p 2 0 / 4 % 4)
          (get_or p 2 0 / 2 % 2) (get_or p 3 0 / 64 % 4) (omega arith) (omega arith) (omega arith)
          (omega arith) (omega arith),
    ))

-- A header takes four bytes.
pub parse-length : (p : Bytes) (f : Frame) → parse p ≡ some f → 4 ≤ length p
unfolding parse
parse-length p f h = ground arith
