-- ===== src/Audio/Tests.antt =====
-- Runs of the feeder and the interrupt.
use casquinha.DecTask.{park}
use casquinha.App.Scene.{au_play, au_sync}
use casquinha.Audio.Passes.{service_audio-IsListen}
use casquinha.Audio.Service.{find_frame, service_audio}
use casquinha.DecRing.Round.{IsDecoder}
use casquinha.Mp3.{frame_of, parse, confirms, sync_from, Frame, sync}
use casquinha.Audio.Listen.{park_task, arm, goes_on, Listen, Answers}
use casquinha.Audio.Frames.{GrantsRings}
use casquinha.Audio.Listens.{IsListen}
use casquinha.Audio.Handing.{find_frame-hands_over, HasRings}
use native.Mathlib.Nat.{dvd-mul_left}
use casquinha.Prelude.{
  ◌∙◌, ap, sym, Option, none, ◌+◌, ◌*◌, length, replicate, length-replicate, min, ◌++◌, Bytes, ℕ,
  ◌-◌, ◌^◌, ◌≡◌, refl, arith, true, false, some, [], ◌∷◌, codes,
}
use casquinha.Prelude.Int.{pos}
use casquinha.DecRing.Fifo.{pending, IsRing}
use casquinha.DecRing.{frame_size, Env, Ring}
use casquinha.Transport.{running, Transport, done, no_error}
use casquinha.Audio.{Output, refill, drain_stream, double_back}
use casquinha.Audio.Ends.{IsFeed, IsRefill, drain_stream-IsFeed, double_back-IsRefill}

-- Two small rings whose cursors are about to wrap.
abbrev small : Ring
small = record {
  comp = 8 ∷ 9 ∷ 0 ∷ 0 ∷ 0 ∷ 5 ∷ 6 ∷ 7 ∷ [];
  comp_wr = 2;
  comp_rd = 2 ^ 32 - 3;
  eof = false;
  stage = 3 ∷ 4 ∷ [];
  pcm = 5 ∷ 6 ∷ 1 ∷ 4 ∷ [];
  pcm_wr = 2;
  pcm_rd = 2 ^ 32 - 1;
  frames = 0;
  resyncs = 0;
  resync_bytes = 0;
  flushes = 0;
  pcm_total = 0;
  dec_time = 0;
}

small-IsRing : IsRing small
small-IsRing = record {
  comp_cursors = record {
    some_room = omega arith;
    word = omega arith;
    divides = dvd-mul_left 8 (2 ^ 29);
    wr_word = omega arith;
    rd_word = omega arith;
    fits = omega arith;
  };
  pcm_cursors = record {
    some_room = omega arith;
    word = omega arith;
    divides = dvd-mul_left 4 (2 ^ 30);
    wr_word = omega arith;
    rd_word = omega arith;
    fits = omega arith;
  };
  staged = omega arith;
}

-- A stream that has ended with five bytes in its buffer: three of them fit.
abbrev ended : Transport
ended = record {
  host = [];
  port = pos 8000;
  selector = [];
  status = done;
  error = no_error;
  message = [];
  data' = codes "abcde";
  cap = 8192;
  started = true;
  cancelled = false;
  streaming = true;
  fd = false;
}

drain_stream-IsFeed_example :
    (out : Ring × Transport × ℕ) × (drain_stream small ended 0 ≡ some out)
    × IsFeed small ended out.0 out.1
drain_stream-IsFeed_example = drain_stream-IsFeed small ended 0 small-IsRing

-- The trim has asked for one byte.
abbrev playing : Output
playing = record { ring = small; skip = pos 1; fires = 7; silences = 0 }

tail_of_a_dead_stream : refill false 2 ≡ 2
unfolding refill
tail_of_a_dead_stream = refl

double_back-IsRefill_example :
    IsRefill false playing (double_back false playing).0 (double_back false playing).1
double_back-IsRefill_example = double_back-IsRefill false playing small-IsRing

-- A stream that is open, whose header has been cut off, with junk before its first frame.
abbrev header : Bytes
header = 0xff ∷ 0xf3 ∷ 0x14 ∷ 0xc0 ∷ []

abbrev one_frame : Bytes
one_frame = header ++ replicate 20 0

abbrev parsed : Frame
parsed = record {
  version = 2;
  bitrate_kbps = 8;
  samplerate = 24000;
  channels = 1;
  samples = 576;
  frame_bytes = 24;
}

abbrev syncing : Listen ℕ
syncing = record {
  state = au_sync;
  stream = some (record ended { status = running });
  comp = 7 ∷ 0xff ∷ 0xff ∷ one_frame ++ one_frame ++ header;
  out = record playing { ring = record small { comp = []; pcm = [] } };
  rx_total = 300;
  fmt = parsed;
  chan = false;
  playing = false;
  has_task = false;
  mp_decode = false;
  dec_cmd = park;
  trims = 0;
  starve_tick = 0;
  rx_tick = 0;
  seen_silences = 0;
  seen_rx = none;
  world = 0;
}

abbrev comp_buffer : Bytes
comp_buffer = replicate (256 * 1024) 0

abbrev pcm_buffer : Bytes
pcm_buffer = replicate (2048 * 1024) 0

abbrev answers : Answers
answers = record {
  polled = λ t. t;
  comp_ring = some comp_buffer;
  pcm_ring = some pcm_buffer;
  makes_task = false;
  acks = true;
  buffers = true;
  channel = true;
  plays = true;
  now = 900;
}

rings : HasRings answers comp_buffer pcm_buffer
rings = record {
  comp_is = refl;
  pcm_is = refl;
  comp_size = length-replicate {A = ℕ} (256 * 1024) 0;
  pcm_size = length-replicate {A = ℕ} (2048 * 1024) 0;
}

sync-syncing : sync syncing.comp ≡ some (3, parsed)
unfolding sync sync_from confirms parse frame_of
sync-syncing = refl

find_frame-hands_over_example :
    (l' : Listen ℕ) × (find_frame answers syncing ≡ some (goes_on l'))
    × (l'.state ≡ au_play)
    × (l'.comp ≡ [])
    × (pending l'.out.ring ≡ one_frame ++ one_frame ++ header)
    × IsRing l'.out.ring
find_frame-hands_over_example =
    find_frame-hands_over answers comp_buffer pcm_buffer 3 parsed syncing rings refl (omega arith)
      sync-syncing

-- A decoder that makes 576 silent mono samples of each 24 bytes.
abbrev mute : Env
mute = record {
  World = ℕ;
  decode = λ w b. (
    record {
      samples = pos 576;
      channels = 1;
      consumed = pos (min 24 (length b));
      sound = replicate frame_size 0;
    },
    w + 1,
  );
  now = none;
  played = λ w. (0, w);
}

mute-IsDecoder : IsDecoder mute
mute-IsDecoder = record {
  consumed_le = λ w b. omega arith;
  sound_le = λ w b. omega arith;
  sound_is = λ w b. length-replicate {A = ℕ} frame_size 0;
}

abbrev size : Option Bytes → ℕ
size none = 0
size (some b) = length b

answers-GrantsRings : GrantsRings answers
answers-GrantsRings = record {
  comp_size = λ c e. sym (ap size e) ∙ rings.comp_size;
  pcm_size = λ c e. sym (ap size e) ∙ rings.pcm_size;
}

syncing-IsListen : IsListen syncing
syncing-IsListen = record {
  in_order = record {
    ring_ok = λ h. absurd (ground (arith, h));
    unstaged = λ h. absurd (ground (arith, h));
    alive = λ h. refl;
    quiet = λ h. absurd (ground (arith, h));
  };
  http_bound = λ h. absurd (ground (arith, h));
  sync_bound = λ h. omega arith;
}

service_audio-IsListen_example :
    (l' : Listen ℕ) × (service_audio mute answers syncing ≡ some l') × IsListen l'
service_audio-IsListen_example =
    service_audio-IsListen mute answers syncing mute-IsDecoder answers-GrantsRings syncing-IsListen

-- The task has not acknowledged the parking, and is given the decoding all the same.
dead_task :
    (arm false false comp_buffer pcm_buffer (record syncing { has_task = true })).mp_decode ≡ true
unfolding arm park_task
dead_task = refl
