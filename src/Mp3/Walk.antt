-- ===== src/Mp3/Walk.antt =====
-- `cq_mp3_walk` walks whole frames of one stream.
use native.Mathlib.Nat.{zero-add}
use casquinha.Prelude.{
  true, false, Option-cases, ==_refl, ℕ, zero, suc, ◌+◌, ◌≤◌, Option, none, some, ltb, length,
  length-drop, drop, Bytes, ◌≡◌, refl, arith, inl, inr, Bool-cases,
}
use casquinha.Mp3.{walk, Frame, parse, agrees, walk_from}

-- `cnt` whole frames of one version and rate, back to back from the start of a buffer, are `off`
-- bytes long.
pub data Frames (version rate : ℕ) : Bytes → ℕ → ℕ → Type 0 where
  done : {buf : Bytes} → Frames version rate buf 0 0
  frame :
      {buf : Bytes} {f : Frame} {off cnt total : ℕ}
      → parse buf ≡ some f
      → f.version ≡ version
      → f.samplerate ≡ rate
      → f.frame_bytes ≤ length buf
      → Frames version rate (drop f.frame_bytes buf) off cnt
      → total ≡ f.frame_bytes + off
      → Frames version rate buf total (suc cnt)

-- What the loop adds to its two counters.
record Walked (version rate : ℕ) (rest : Bytes) (rounds off cnt : ℕ) (out : ℕ × ℕ) : Type 0 where
  bytes : ℕ
  count : ℕ
  bytes_are : out.0 ≡ off + bytes
  count_is : out.1 ≡ cnt + count
  walked : Frames version rate rest bytes count
  within : bytes ≤ length rest
  bounded : count ≤ rounds

stay :
    (version rate : ℕ) (rest : Bytes) (rounds off cnt : ℕ)
    → Walked version rate rest rounds off cnt (off, cnt)
stay version rate rest rounds off cnt = record {
  bytes = 0;
  count = 0;
  bytes_are = omega arith;
  count_is = omega arith;
  walked = done;
  within = omega arith;
  bounded = omega arith;
}

go_on :
    (version rate : ℕ) (rest : Bytes) (f : Frame) (rounds off cnt : ℕ) (out : ℕ × ℕ)
    → parse rest ≡ some f
    → f.version ≡ version
    → f.samplerate ≡ rate
    → f.frame_bytes ≤ length rest
    → Walked version rate (drop f.frame_bytes rest) rounds (off + f.frame_bytes) (cnt + 1) out
    → Walked version rate rest (suc rounds) off cnt out
go_on version rate rest f rounds off cnt out e hv hr fits w = record {
  bytes = f.frame_bytes + w.bytes;
  count = suc w.count;
  bytes_are = omega (arith, w.bytes_are);
  count_is = omega (arith, w.count_is);
  walked = frame e hv hr fits w.walked refl;
  within = omega (arith, w.within, length-drop f.frame_bytes rest);
  bounded = omega (arith, w.bounded);
}

walk_from-Walked :
    (rounds : ℕ) (rest : Bytes) (g : Frame) (off cnt : ℕ)
    → Walked g.version g.samplerate rest rounds off cnt (walk_from rounds rest (some g) off cnt)
unfolding walk_from
walk_from-Walked zero rest g off cnt = stay g.version g.samplerate rest zero off cnt
walk_from-Walked (suc rounds) rest g off cnt =
    go (parse rest) refl
      (λ f. walk_from-Walked rounds (drop f.frame_bytes rest) g (off + f.frame_bytes) (cnt + 1))
  where
    go :
        (o : Option Frame)
        → parse rest ≡ o
        → ((f : Frame)
            → Walked g.version g.samplerate
                (drop f.frame_bytes rest)
                rounds
                (off + f.frame_bytes)
                (cnt + 1)
                (walk_from rounds
                  (drop f.frame_bytes rest)
                  (some g)
                  (off + f.frame_bytes)
                  (cnt + 1)))
        → Walked g.version g.samplerate rest
            (suc rounds)
            off
            cnt
            (walk_from (suc rounds) rest (some g) off cnt)
    go none e ih = rw (e, walk_from) (stay g.version g.samplerate rest (suc rounds) off cnt)
    go (some f) e ih =
        rw (e, walk_from)
          (elim (Bool-cases (ltb (length rest) f.frame_bytes)) [
            | inl short ↦ rw short (stay g.version g.samplerate rest (suc rounds) off cnt)
            | inr whole ↦ rw whole (elim (Bool-cases (agrees f g)) [
              | inl same ↦ rw same (
                  go_on g.version g.samplerate rest f rounds off cnt _ e (ground arith)
                    (ground arith) (ground arith) (ih f))
              | inr other ↦ rw other (stay g.version g.samplerate rest (suc rounds) off cnt)
            ])
          ])

first_round :
    (rounds : ℕ) (rest : Bytes) (f : Frame) (off cnt : ℕ)
    → parse rest ≡ some f
    → walk_from (suc rounds) rest none off cnt ≡ walk_from (suc rounds) rest (some f) off cnt
unfolding walk_from
first_round rounds rest f off cnt e =
    rw (e, walk_from) (rw (==_refl f.version, ==_refl f.samplerate) refl)

no_round :
    (rounds : ℕ) (rest : Bytes) (first : Option Frame) (off cnt : ℕ)
    → parse rest ≡ none
    → walk_from rounds rest first off cnt ≡ (off, cnt)
unfolding walk_from
no_round zero rest first off cnt e = refl
no_round (suc rounds) rest first off cnt e = rw (e, walk_from) refl

pub record IsWalk (buf : Bytes) (max_frames : ℕ) (out : ℕ × ℕ) : Type 0 where
  pub version : ℕ
  pub rate : ℕ
  pub frames : Frames version rate buf out.0 out.1
  pub within : out.0 ≤ length buf
  pub bounded : out.1 ≤ max_frames

IsWalk-stay : (buf : Bytes) (max_frames : ℕ) → IsWalk buf max_frames (0, 0)
IsWalk-stay buf max_frames = record {
  version = 0;
  rate = 0;
  frames = done;
  within = omega arith;
  bounded = omega arith;
}

IsWalk-Walked :
    (version rate : ℕ) (buf : Bytes) (max_frames : ℕ) (out : ℕ × ℕ)
    → Walked version rate buf max_frames 0 0 out
    → IsWalk buf max_frames out
IsWalk-Walked version rate buf max_frames out w = record {
  version = version;
  rate = rate;
  frames = rw (w.bytes_are, w.count_is, zero-add w.bytes, zero-add w.count) w.walked;
  within = omega (arith, w.within, w.bytes_are);
  bounded = omega (arith, w.bounded, w.count_is);
}

-- Whatever the buffer holds, the walk covers whole frames of one version and rate, back to back from
-- its start, within the buffer, and no more than asked for.
pub walk-IsWalk : (buf : Bytes) (max_frames : ℕ) → IsWalk buf max_frames (walk buf max_frames)
unfolding walk walk_from
walk-IsWalk buf zero = IsWalk-stay buf zero
walk-IsWalk buf (suc n) = elim (Option-cases (parse buf)) [
  | inl nothing ↦ rw (no_round (suc n) buf none 0 0 nothing) (IsWalk-stay buf (suc n))
  | inr (f, e) ↦
      rw (first_round n buf f 0 0 e)
        (IsWalk-Walked f.version f.samplerate buf (suc n) _ (walk_from-Walked (suc n) buf f 0 0))
]

walk_from-grows :
    (version rate : ℕ) (rest : Bytes) (off cnt : ℕ)
    → Frames version rate rest off cnt
    → (rounds : ℕ) (g : Frame) (o c : ℕ) → cnt ≤ rounds
    → g.version ≡ version
    → g.samplerate ≡ rate
    → c + cnt ≤ (walk_from rounds rest (some g) o c).1
unfolding walk_from
walk_from-grows version rate rest off cnt done rounds g o c h hv hr =
    let w = walk_from-Walked rounds rest g o c in omega (arith, w.count_is)
walk_from-grows version rate rest off (suc cnt) (frame {f} e fv fr fits more sum) zero g o c h hv
      hr =
    absurd (omega arith)
walk_from-grows version rate rest off (suc cnt) (frame {f} e fv fr fits more sum) (suc n) g o c h hv
      hr =
    let later =
      walk_from-grows version rate (drop f.frame_bytes rest) _ cnt more n g (o + f.frame_bytes)
        (c + 1) (omega arith) hv hr in
    let whole : ltb (length rest) f.frame_bytes ≡ false = ground arith in
    let same : agrees f g ≡ true = ground arith in
    rw (e, walk_from) (rw (whole, same) (omega arith))

-- No run of whole frames of one stream at the start of the buffer, up to the number asked for, is
-- longer than the walk.
pub walk_maximal :
    (version rate : ℕ) (buf : Bytes) (off cnt max_frames : ℕ)
    → Frames version rate buf off cnt
    → cnt ≤ max_frames
    → cnt ≤ (walk buf max_frames).1
unfolding walk
walk_maximal version rate buf off cnt max_frames done h = omega arith
walk_maximal version rate buf off (suc cnt) zero (frame {f} e fv fr fits more sum) h =
    absurd (omega arith)
walk_maximal version rate buf off (suc cnt) (suc n) (frame {f} e fv fr fits more sum) h =
    let grown =
      walk_from-grows version rate buf off (suc cnt) (frame e fv fr fits more sum) (suc n) f 0 0 h
        fv fr in
    rw (first_round n buf f 0 0 e) (omega arith)
