-- ===== src/Mp3/Tests.antt =====
-- Runs of the frame parser on a stream of 24-byte frames (MPEG 2, 8 kbps, 24 kHz, mono).
use casquinha.Prelude.{◌≡◌, refl, arith, Bytes, drop, replicate, none, some, [], ◌∷◌, ◌++◌}
use casquinha.Mp3.{Frame, frame_of, parse, walk_from, walk}
use casquinha.Mp3.Header.{IsFrame, parse-IsFrame}
use casquinha.Mp3.Walk.{IsWalk, Frames, done, frame, walk-IsWalk}

abbrev header : Bytes
header = 0xff ∷ 0xf3 ∷ 0x14 ∷ 0xc0 ∷ []

abbrev one_frame : Bytes
one_frame = header ++ replicate 20 0

abbrev frames : Bytes
frames = one_frame ++ one_frame ++ header

-- Junk with a false sync word before the frames.
abbrev spliced : Bytes
spliced = 7 ∷ 0xff ∷ 0xff ∷ frames

abbrev parsed : Frame
parsed = record {
  version = 2;
  bitrate_kbps = 8;
  samplerate = 24000;
  channels = 1;
  samples = 576;
  frame_bytes = 24;
}

-- 320 kbps at 44.1 kHz with padding, and a free-format header.
parse_large :
    parse (0xff ∷ 0xfb ∷ 0xe2 ∷ 0x00 ∷ [])
    ≡ some (record {
      version = 1;
      bitrate_kbps = 320;
      samplerate = 44100;
      channels = 2;
      samples = 1152;
      frame_bytes = 1045;
    })
unfolding parse frame_of
parse_large = refl

parse_free_format : parse (0xff ∷ 0xfb ∷ 0x02 ∷ 0x00 ∷ []) ≡ none
unfolding parse frame_of
parse_free_format = refl

parse-frames : parse frames ≡ some parsed
unfolding parse frame_of
parse-frames = refl

parse-second : parse (drop 24 frames) ≡ some parsed
unfolding parse frame_of
parse-second = refl

-- The walk stops at the partial third frame.
walk-frames : walk frames 5 ≡ (48, 2)
unfolding walk walk_from parse frame_of
walk-frames = refl

parse-IsFrame_example : IsFrame parsed
parse-IsFrame_example = parse-IsFrame frames parsed parse-frames

walk-IsWalk_example : IsWalk frames 5 (walk frames 5)
walk-IsWalk_example = walk-IsWalk frames 5

two_frames : Frames 2 24000 frames 48 2
two_frames =
    frame {f = parsed} parse-frames refl refl (omega arith)
      (frame {f = parsed} parse-second refl refl (omega arith) done refl) refl
