-- ===== src/DecRing/Gate.antt =====
-- The gate in front of the decoder.
use Prim.Native.Nat.{zero}
use casquinha.Mp3.{walk}
use casquinha.Mp3.Walk.{Frames, IsWalk, walk-IsWalk}
use casquinha.Mp3.{sync}
use casquinha.Prelude.{
  if◌then◌else◌, ◌⊎◌, leb, false, true, ℕ, ◌-◌, ◌≡◌, refl, ◌≤◌, arith, Bytes, length, drop, ltb,
  inl, inr, Bool-cases, Option-cases, Bool, ◌==◌,
}
use casquinha.DecRing.Fifo.{audible}
use casquinha.DecRing.{suc, held, sub32, backlog, turn, Ring, Env, Loop, frame_size, realign}
use casquinha.DecRing.Round.{after}

-- While the gate holds, a round leaves the world, the count of frames and what will be heard.
held-still :
    (e : Env) (l : Loop e.World)
    → held l.ring l.used ≡ true
    → ((after (turn e l)).world ≡ l.world)
      × ((after (turn e l)).ring.frames ≡ l.ring.frames)
      × (audible (after (turn e l)).ring ≡ audible l.ring)
unfolding turn realign audible
held-still e l gate =
    elim (Bool-cases (ltb (sub32 (length l.ring.pcm) (backlog l.ring)) frame_size)) [
      | inl full ↦ rw (full, turn) (refl, refl, refl)
      | inr room ↦
          rw (room, turn)
            (elim (Bool-cases (leb (length l.ring.stage) l.used)) [
              | inl dry ↦ rw dry (refl, refl, refl)
              | inr more ↦
                  rw (more, gate)
                    (elim (Bool-cases (ltb 8192 (length l.ring.stage - l.used))) [
                      | inr shallow ↦ rw (shallow, realign) (refl, refl, refl)
                      | inl deep ↦
                          rw (deep, realign)
                            (elim (Option-cases (sync (drop l.used l.ring.stage))) [
                              | inl nothing ↦ rw nothing (refl, refl, refl)
                              | inr ((off, f), found) ↦ rw found (elim (Bool-cases (off == 0)) [
                                | inl start ↦ rw start (refl, refl, refl)
                                | inr ahead ↦ rw ahead (refl, refl, refl)
                              ])
                            ])
                    ])
            ])
    ]

-- So many whole frames of one version and rate stand at the head of `buf`, back to back.
pub HasFrames : Bytes → ℕ → Type 0
HasFrames buf cnt = (version : ℕ) × (rate : ℕ) × (off : ℕ) × Frames version rate buf off cnt

open-HasFrames :
    (r : Ring) (used : ℕ)
    → held r used ≡ false
    → HasFrames (drop used r.stage) 2 ⊎ ((r.eof ≡ true) × HasFrames (drop used r.stage) 1)
unfolding held HasFrames
open-HasFrames r used e =
    counted (walk buf 2).1 r.eof e w.bounded (w.version, w.rate, (walk buf 2).0, w.frames)
  where
    buf : Bytes
    buf = drop used r.stage

    w : IsWalk buf 2 (walk buf 2)
    w = walk-IsWalk buf 2

    counted :
        (n : ℕ) (eof : Bool)
        → ltb n (if eof then 1 else 2) ≡ false
        → n ≤ 2
        → HasFrames buf n
        → HasFrames buf 2 ⊎ ((eof ≡ true) × HasFrames buf 1)
    counted zero eof e le h = absurd (none_at eof e)
      where
        none_at : (b : Bool) → ltb 0 (if b then 1 else 2) ≡ false → ⊥
        none_at true e = ground (arith, e)
        none_at false e = ground (arith, e)
    counted (suc zero) true e le h = inr (refl, h)
    counted (suc zero) false e le h = absurd (ground (arith, e))
    counted (suc (suc zero)) eof e le h = inl h
    counted (suc (suc (suc n))) eof e le h = absurd (omega (arith, le))

-- A round calls the decoder only where two whole frames of one version and rate stand back to back at
-- the head of the rest of the stage, or one when the stream has ended: in any other round the world is
-- as before, no frame is counted, nothing is added to what will be heard.
pub turn-gated :
    (e : Env) (l : Loop e.World)
    → ((after (turn e l)).world ≡ l.world)
        × ((after (turn e l)).ring.frames ≡ l.ring.frames)
        × (audible (after (turn e l)).ring ≡ audible l.ring)
      ⊎ (HasFrames (drop l.used l.ring.stage) 2
          ⊎ ((l.ring.eof ≡ true) × HasFrames (drop l.used l.ring.stage) 1))
turn-gated e l = elim (Bool-cases (held l.ring l.used)) [
  | inl gate ↦ inl (held-still e l gate)
  | inr open_ ↦ inr (open-HasFrames l.ring l.used open_)
]
