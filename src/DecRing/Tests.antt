-- ===== src/DecRing/Tests.antt =====
-- Runs of the compressed ring and the pump.
use native.Mathlib.Nat.{dvd-mul_left}
use casquinha.Prelude.{
  drop, ◌⊎◌, ℕ, ◌+◌, ◌-◌, ◌*◌, ◌^◌, ◌≡◌, refl, ◌≤◌, arith, Bytes, length, replicate,
  length-replicate, take, ◌++◌, [], ◌∷◌, min, Bool, true, false, some,
}
use casquinha.Prelude.Int.{pos}
use casquinha.DecRing.Wrap.{wrapped}
use casquinha.DecRing.Cursors.{between}
use casquinha.DecRing.Fifo.{IsRing, pending, audible, put-pending, emit-audible}
use casquinha.DecRing.Round.{IsDecoder, after}
use casquinha.DecRing.Gate.{turn-gated, HasFrames}
use casquinha.Mp3.{walk, walk_from, parse}
use casquinha.DecRing.Pump.{IsPumped, pump-IsPumped}
use casquinha.DecRing.{
  Ring, Decoded, Env, Loop, space, claim, put, top_up, backlog, emit, held, turn, pump, frame_size,
}

abbrev silence : Bytes
silence = replicate 8192 0

length-silence : length silence ≡ 8192
length-silence = length-replicate {A = ℕ} 8192 0

abbrev frame_sound : Bytes
frame_sound = replicate frame_size 7

length-frame_sound : length frame_sound ≡ frame_size
length-frame_sound = length-replicate {A = ℕ} frame_size 7

abbrev fresh : Bytes
fresh = 20 ∷ 21 ∷ 22 ∷ []

-- The producer has wrapped around an eight-byte ring, and the stage holds two bytes.
abbrev wrapping : Ring
wrapping = record {
  comp = 8 ∷ 9 ∷ 0 ∷ 0 ∷ 0 ∷ 5 ∷ 6 ∷ 7 ∷ [];
  comp_wr = 2;
  comp_rd = 2 ^ 32 - 3;
  eof = false;
  stage = 3 ∷ 4 ∷ [];
  pcm = silence;
  pcm_wr = 2 ^ 32 - 2;
  pcm_rd = 2 ^ 32 - 6;
  frames = 0;
  resyncs = 0;
  resync_bytes = 0;
  flushes = 0;
  pcm_total = 0;
  dec_time = 0;
}

wrapping-IsRing : IsRing wrapping
wrapping-IsRing = record {
  comp_cursors = record {
    some_room = omega arith;
    word = omega arith;
    divides = dvd-mul_left 8 (2 ^ 29);
    wr_word = omega arith;
    rd_word = omega arith;
    fits = omega arith;
  };
  pcm_cursors = record {
    some_room = rw length-silence (omega arith);
    word = omega (arith, length-silence);
    divides = rw length-silence (dvd-mul_left 8192 (2 ^ 19));
    wr_word = omega arith;
    rd_word = omega arith;
    fits = rw length-silence (omega arith);
  };
  staged = omega arith;
}

pending-wrapping : pending wrapping ≡ 3 ∷ 4 ∷ 5 ∷ 6 ∷ 7 ∷ 8 ∷ 9 ∷ []
unfolding pending between wrapped
pending-wrapping = refl

claim-wrapping : claim wrapping ≡ (2, 3)
unfolding claim space
claim-wrapping = refl

top_up-wrapping : (top_up wrapping).0.stage ≡ 3 ∷ 4 ∷ 5 ∷ 6 ∷ 7 ∷ 8 ∷ 9 ∷ []
unfolding top_up
top_up-wrapping = refl

claimed : length fresh ≤ (claim wrapping).1
unfolding claim space
claimed = omega arith

put-pending_example :
    (pending (put wrapping fresh) ≡ pending wrapping ++ fresh) × IsRing (put wrapping fresh)
put-pending_example = put-pending wrapping fresh wrapping-IsRing claimed

-- A decoder that makes 576 mono samples of each 24 bytes.
abbrev tone : Decoded
tone = record { samples = pos 576; channels = 1; consumed = pos 24; sound = frame_sound }

room : backlog wrapping + 576 * 1 * 2 ≤ length wrapping.pcm
unfolding backlog
room = rw length-silence (omega arith)

emit-audible_example :
    (audible (emit wrapping tone) ≡ audible wrapping ++ take (576 * 1 * 2) tone.sound)
    × IsRing (emit wrapping tone)
emit-audible_example =
    emit-audible wrapping tone wrapping-IsRing (rw (length-frame_sound) (omega arith)) room

abbrev mono : Env
mono = record {
  World = ℕ;
  decode = λ w b. (
    record {
      samples = pos 576;
      channels = 1;
      consumed = pos (min 24 (length b));
      sound = frame_sound;
    },
    w + 1,
  );
  now = some (λ w. (w * 10, w));
  played = λ w. (100, w);
}

mono-IsDecoder : IsDecoder mono
mono-IsDecoder = record {
  consumed_le = λ w b. omega arith;
  sound_le = λ w b. omega arith;
  sound_is = λ w b. length-frame_sound;
}

pump-IsPumped_example :
    (out : Bool × Ring × ℕ) × (pump mono 0 wrapping ≡ some out) × IsPumped wrapping out.1
pump-IsPumped_example = pump-IsPumped mono 0 wrapping mono-IsDecoder wrapping-IsRing

abbrev start : Loop ℕ
start = record { ring = wrapping; used = 0; progress = true; world = 5 }

start-held : held wrapping 0 ≡ true
unfolding held walk walk_from parse
start-held = refl

turn-gated_example :
    ((after (turn mono start)).world ≡ 5)
      × ((after (turn mono start)).ring.frames ≡ 0)
      × (audible (after (turn mono start)).ring ≡ audible wrapping)
    ⊎ (HasFrames (drop 0 wrapping.stage) 2
        ⊎ ((wrapping.eof ≡ true) × HasFrames (drop 0 wrapping.stage) 1))
turn-gated_example = turn-gated mono start
