-- ===== src/DecRing/Round.antt =====
-- One round of the decode loop: the gate, the resynchronization and the decoder's call.
use casquinha.Mp3.{sync}
use casquinha.Mp3.Sync.{sync-first}
use casquinha.Prelude.{
  leb, false, true, ℕ, ◌+◌, ◌-◌, ◌*◌, ◌≡◌, refl, ◌∙◌, ◌≤◌, ◌<◌, arith, Bytes, length, drop, ltb,
  inl, inr, Bool-cases, Option-cases, Bool, ◌==◌, length-drop,
}
use casquinha.Prelude.Int.{pos_part}
use casquinha.DecRing.Fifo.{emit-audible, IsRing, pending}
use casquinha.DecRing.{
  held, sub32, backlog, digest, timed, turn, emit, Decoded, Ring, Env, Loop, Turn, stop, again,
  add32, frame_size, realign,
}

-- What the decoder promises: it takes no more than it was given, and one frame fits its buffer.
pub record IsDecoder (e : Env) : Type 0 where
  pub consumed_le : (w : e.World) (b : Bytes) → pos_part (e.decode w b).0.consumed ≤ length b
  pub sound_le :
      (w : e.World) (b : Bytes)
      → pos_part (e.decode w b).0.samples * (e.decode w b).0.channels * 2 ≤ frame_size
  pub sound_is : (w : e.World) (b : Bytes) → length (e.decode w b).0.sound ≡ frame_size

-- The rings are in order and the stage is used up to a place inside it.
pub record IsLoop {W : Type 0} (l : Loop W) : Type 0 where
  pub ring_ok : IsRing l.ring
  pub used_le : l.used ≤ length l.ring.stage

-- The compressed side stays as it is.
pub record Keeps {W : Type 0} (l l' : Loop W) : Type 0 where
  pub stage : l'.ring.stage ≡ l.ring.stage
  pub pending : pending l'.ring ≡ pending l.ring
  pub used : l.used ≤ l'.used
  pub loop : IsLoop l'

-- What a round leaves; going on, it has used more of the stage.
unfoldable pub Good : {W : Type 0} → Loop W → Turn W → Type 0
Good l (stop l') = Keeps l l'
Good l (again l') = Keeps l l' × (l.used < l'.used)

-- Rings that differ in their counters only.
counters-IsRing :
    (r : Ring) (a b c d : ℕ)
    → IsRing r
    → IsRing (record r { resyncs = a; resync_bytes = b; flushes = c; dec_time = d })
counters-IsRing r a b c d h = record {
  comp_cursors = h.comp_cursors;
  pcm_cursors = h.pcm_cursors;
  staged = h.staged;
}

moved-Keeps :
    {W : Type 0} (l : Loop W) (a b c d used : ℕ) (p : Bool) (w : W)
    → IsLoop l
    → l.used ≤ used
    → used ≤ length l.ring.stage
    → Keeps l (record {
      ring = record l.ring { resyncs = a; resync_bytes = b; flushes = c; dec_time = d };
      used = used;
      progress = p;
      world = w;
    })
unfolding pending
moved-Keeps l a b c d used p w h lo hi = record {
  stage = refl;
  pending = refl;
  used = lo;
  loop = record { ring_ok = counters-IsRing l.ring a b c d h.ring_ok; used_le = hi };
}

Keeps-refl : {W : Type 0} (l : Loop W) → IsLoop l → Keeps l l
Keeps-refl l h = record { stage = refl; pending = refl; used = omega arith; loop = h }

pub Keeps-trans : {W : Type 0} (a b c : Loop W) → Keeps a b → Keeps b c → Keeps a c
Keeps-trans a b c p q = record {
  stage = q.stage ∙ p.stage;
  pending = q.pending ∙ p.pending;
  used = omega (arith, p.used, q.used);
  loop = q.loop;
}

realign-Good : {W : Type 0} (l : Loop W) → IsLoop l → Good l (realign l)
unfolding realign Good
realign-Good l h = elim (Bool-cases (ltb 8192 (length l.ring.stage - l.used))) [
  | inr shallow ↦ rw (shallow, realign) (Keeps-refl l h)
  | inl deep ↦
      rw (deep, realign)
        (elim (Option-cases (sync (drop l.used l.ring.stage))) [
          | inl nothing ↦ rw nothing (
              moved-Keeps l l.ring.resyncs l.ring.resync_bytes (add32 l.ring.flushes 1)
                l.ring.dec_time (length l.ring.stage) l.progress l.world h h.used_le (omega arith))
          | inr ((off, f), e) ↦ rw e (elim (Bool-cases (off == 0)) [
            | inl start ↦ rw start (Keeps-refl l h)
            | inr ahead ↦
                let found = (sync-first (drop l.used l.ring.stage) off f e).0.staged in
                let left = length-drop l.used l.ring.stage in
                rw ahead (
                  moved-Keeps l (add32 l.ring.resyncs 1) (add32 l.ring.resync_bytes off)
                      l.ring.flushes l.ring.dec_time (l.used + off) l.progress l.world h
                      (omega arith) (omega (arith, h.used_le)),
                  ground arith,
                )
          ])
        ])
]

record IsTimed {W : Type 0} (r : Ring) (bytes : Bytes) (out : Decoded × Ring × W) : Type 0 where
  time : ℕ
  ring_is : out.1 ≡ record r { dec_time = time }
  consumed : pos_part out.0.consumed ≤ length bytes
  sound : pos_part out.0.samples * out.0.channels * 2 ≤ frame_size
  buffer : length out.0.sound ≡ frame_size

timed-IsTimed :
    (e : Env)
    → IsDecoder e
    → (w : e.World) (r : Ring) (bytes : Bytes) → IsTimed r bytes (timed e w r bytes)
unfolding timed
timed-IsTimed e h w r bytes = elim (Option-cases e.now) [
  | inl off ↦
      rw (off, timed)
        (record {
          time = r.dec_time;
          ring_is = refl;
          consumed = h.consumed_le w bytes;
          sound = h.sound_le w bytes;
          buffer = h.sound_is w bytes;
        })
  | inr (now, on) ↦
      rw (on, timed)
        (record {
          time = _;
          ring_is = refl;
          consumed = h.consumed_le (now w).1 bytes;
          sound = h.sound_le (now w).1 bytes;
          buffer = h.sound_is (now w).1 bytes;
        })
]

emit-pending :
    (r : Ring) (d : Decoded) → (pending (emit r d) ≡ pending r) × ((emit r d).stage ≡ r.stage)
unfolding emit pending
emit-pending r d = (refl, refl)

-- A digested frame keeps the ring when its PCM fits.
digest-Good :
    {W : Type 0} (l : Loop W) (out : Decoded × Ring × W)
    → IsLoop l
    → backlog l.ring + frame_size ≤ length l.ring.pcm
    → IsTimed l.ring (drop l.used l.ring.stage) out
    → Good l (digest l out)
unfolding digest Good backlog
digest-Good l (d, r, w) h room t = elim (Bool-cases (pos_part d.consumed == 0)) [
  | inl partial ↦ rw (partial, t.ring_is) (same l.used l.progress (omega arith) h.used_le)
  | inr some_ ↦
      let left = length-drop l.used l.ring.stage in
      let fits = t.consumed in
      rw (some_, t.ring_is)
        (elim (Bool-cases (pos_part d.samples == 0)) [
          | inl junk ↦ rw junk (
            same (l.used + pos_part d.consumed) true (omega arith) (omega (arith, h.used_le)),
            ground arith,
          )
          | inr frame ↦ rw frame (
            heard (l.used + pos_part d.consumed) (omega arith) (omega (arith, h.used_le)),
            ground arith,
          )
        ])
]
  where
    r' : Ring
    r' = record l.ring { dec_time = t.time }

    same :
        (used : ℕ) (p : Bool)
        → l.used ≤ used
        → used ≤ length l.ring.stage
        → Keeps l (record { ring = r'; used = used; progress = p; world = w })
    same used p lo hi =
        moved-Keeps l l.ring.resyncs l.ring.resync_bytes l.ring.flushes t.time used p w h lo hi

    heard :
        (used : ℕ)
        → l.used ≤ used
        → used ≤ length l.ring.stage
        → Keeps l (record { ring = emit r' d; used = used; progress = true; world = w })
    heard used lo hi =
        let k = same used true lo hi in
        let e = emit-pending r' d in
        let ok =
          emit-audible r' d k.loop.ring_ok (omega (arith, t.sound, t.buffer))
            (omega (arith, t.sound)) in
        record {
          stage = e.1 ∙ k.stage;
          pending = e.0 ∙ k.pending;
          used = lo;
          loop = record { ring_ok = ok.1; used_le = rw e.1 hi };
        }

pub turn-Good : (e : Env) (l : Loop e.World) → IsDecoder e → IsLoop l → Good l (turn e l)
unfolding turn Good backlog
turn-Good e l dec h =
    elim (Bool-cases (ltb (sub32 (length l.ring.pcm) (backlog l.ring)) frame_size)) [
      | inl full ↦ rw (full, turn) (Keeps-refl l h)
      | inr room ↦
          rw (room, turn)
            (elim (Bool-cases (leb (length l.ring.stage) l.used)) [
              | inl dry ↦ rw dry (Keeps-refl l h)
              | inr more ↦ rw more (elim (Bool-cases (held l.ring l.used)) [
                | inl gate ↦ rw gate (realign-Good l h)
                | inr open_ ↦ rw open_ (
                    digest-Good l (timed e l.world l.ring (drop l.used l.ring.stage)) h (fits room)
                      (timed-IsTimed e dec l.world l.ring (drop l.used l.ring.stage)))
              ])
            ])
    ]
  where
    fits :
        ltb (sub32 (length l.ring.pcm) (backlog l.ring)) frame_size ≡ false
        → backlog l.ring + frame_size ≤ length l.ring.pcm
    fits room = ground (arith, h.ring_ok.pcm_cursors.word, h.ring_ok.pcm_cursors.fits)

-- The loop state that a round leaves.
abbrev pub after : {W : Type 0} → Turn W → Loop W
after (stop l) = l
after (again l) = l
