-- ===== src/View/Bounds.antt =====
-- The output fits its buffers and its ranges.
use native.Mathlib.Nat.{div-le_self}
use casquinha.Prelude.Decimal.{print_int}
use casquinha.Prelude.{
  ◌==◌, ◌%◌, ◌/◌, ℕ, ◌*◌, ◌^◌, ◌<◌, arith, Bool, true, false, ◌&&◌, Option, none, some, Bytes, [],
  ◌∷◌, ◌++◌, inl, inr, Bool-cases, if◌then◌else◌, ◌⊎◌, length, length-take, codes,
}
use casquinha.Prelude.Int.{signed32, wrap64, ◌+ℤ◌, ℤ, pos, negsuc, ltb_ℤ, ◌≤ℤ◌}
use casquinha.Now.{is_playing, Now, PlayState, stopped, playing, paused}
use casquinha.View.{
  ticks_since, Input, Intent, nothing, skip, play, pause, Engine, off, tuning, buffering, on_air,
  View, is_pending, state_text, ack_text, state_word_of, percent, silent_fact, playing_active,
  mount_anomaly, tail_status, readout_in, readout, position_of, key_of, render,
}

-- `state_word`, `status` and `cover_key` leave room for the NUL, and the numbers are in range.
pub record IsView (v : View) : Type 0 where
  pub word_fits : length v.state_word < 16
  pub status_fits : length v.status < 40
  pub key_fits : length v.cover_key < 64
  pub percent_low : negsuc 0 ≤ℤ v.buffer_pct
  pub percent_high : v.buffer_pct ≤ℤ pos 99
  pub position_low : pos 0 ≤ℤ v.position_ms
  pub position_high : (v.duration_ms ≤ℤ pos 0) ⊎ (v.position_ms ≤ℤ v.duration_ms)

percent_bounds :
    (i : Input) → i.ring_fill * 100 < 2 ^ 31 → (pos 0 ≤ℤ percent i) × (percent i ≤ℤ pos 99)
unfolding percent
percent_bounds i h =
    let target = if i.prebuf_target == 0 then 1 else i.prebuf_target in
    clamp (i.ring_fill * 100 % 2 ^ 32 / target)
      (omega (arith, div-le_self (i.ring_fill * 100 % 2 ^ 32) target))
  where
    clamp :
        (q : ℕ)
        → q < 2 ^ 31
        → let pct = if ltb_ℤ (pos 99) (signed32 q) then pos 99 else signed32 q in
          (pos 0 ≤ℤ pct) × (pct ≤ℤ pos 99)
    clamp q h = ground arith

ack-length : (t : Intent) → length (ack_text t) < 16
ack-length nothing = omega arith
ack-length skip = omega arith
ack-length play = omega arith
ack-length pause = omega arith

state-length : (s : PlayState) → length (state_text s) < 16
state-length stopped = omega arith
state-length playing = omega arith
state-length paused = omega arith

word-length : (i : Input) → length (state_word_of i) < 16
unfolding state_word_of
word-length i = elim (Bool-cases (is_pending i)) [
  | inl pending ↦ rw (pending, state_word_of) (ack-length i.intent)
  | inr settled ↦ rw (settled, state_word_of) (go i.snap)
]
  where
    go :
        (o : Option Now)
        → length (elim o as (λ _. Bytes) [ none ↦ [] | some s ↦ state_text s.state ]) < 16
    go none = omega arith
    go (some s) = state-length s.state

key-length : (o : Option Bytes) → length (key_of o) < 64
key-length none = omega arith
key-length (some id) = omega (arith, length-take 63 id)

if-length :
    (b : Bool) (x y : Bytes) → length x < 40 → length y < 40 → length (if b then x else y) < 40
if-length true x y p q = p
if-length false x y p q = q

IsReadout : Bytes × ℤ → Type 0
IsReadout r = (length r.0 < 40) × (negsuc 0 ≤ℤ r.1) × (r.1 ≤ℤ pos 99)

readout_in-IsReadout :
    (e : Engine) (i : Input) → i.ring_fill * 100 < 2 ^ 31 → IsReadout (readout_in e i)
unfolding readout_in tail_status IsReadout
readout_in-IsReadout off i h = (omega arith, omega arith, omega arith)
readout_in-IsReadout tuning i h = (omega arith, omega arith, omega arith)
readout_in-IsReadout buffering i h = elim (Bool-cases (silent_fact i && playing_active i)) [
  | inl waits ↦ rw waits (omega arith, omega arith, omega arith)
  | inr counts ↦
      let p = percent_bounds i h in
      let text = codes "buffering... " ++ print_int (percent i) ++ b'%' ∷ [] in
      rw counts (omega (arith, length-take 39 text), omega (arith, p.0), p.1)
]
readout_in-IsReadout on_air i h =
    let tail : length (tail_status i) < 40 =
      if-length _ (codes "playing out...") (codes "standing by") (omega arith) (omega arith) in
    (
      if-length _ (tail_status i) _ tail (
          if-length (mount_anomaly i) (codes "waiting for Spotify...") _ (omega arith) (
            if-length (silent_fact i) (tail_status i) _ tail
              (if-length _ (codes "buffering...") (codes "on air") (omega arith) (omega arith)))),
      omega arith,
      omega arith,
    )

position-bounds :
    (i : Input) (s : Now)
    → (pos 0 ≤ℤ position_of i s) × ((s.duration_ms ≤ℤ pos 0) ⊎ (position_of i s ≤ℤ s.duration_ms))
unfolding position_of
position-bounds i s =
    clamp
      (if is_playing s.state
        then wrap64 (s.position_ms +ℤ pos (ticks_since i.now_ticks i.snap_ticks * 1000 / 60))
        else s.position_ms)
      s.duration_ms
  where
    clamp :
        (at end : ℤ)
        → let low = if ltb_ℤ at (pos 0) then pos 0 else at in
          let p = if ltb_ℤ (pos 0) end && ltb_ℤ end low then end else low in
          (pos 0 ≤ℤ p) × ((end ≤ℤ pos 0) ⊎ (p ≤ℤ end))
    clamp at end = (ground arith, ground arith)

-- Whatever the input, with less than 21 MB of decoded sound waiting, the three strings fit their
-- buffers with the NUL, the buffer percentage is -1 to 99, and the position is not negative nor, when
-- the duration is known, beyond it.
pub render-IsView : (i : Input) → i.ring_fill * 100 < 2 ^ 31 → IsView (render i)
unfolding render readout IsReadout
render-IsView i h = go i.snap (word-length i) (readout_in-IsReadout i.engine i h)
  where
    go :
        (o : Option Now)
        → let j : Input = record i { snap = o } in
          length (state_word_of j) < 16 → IsReadout (readout_in j.engine j) → IsView (render j)
    go none w r = record {
      word_fits = w;
      status_fits = r.0;
      key_fits = omega arith;
      percent_low = r.1;
      percent_high = r.2;
      position_low = omega arith;
      position_high = inl (omega arith);
    }
    go (some s) w r =
        let p = position-bounds (record i { snap = some s }) s in
        record {
          word_fits = w;
          status_fits = r.0;
          key_fits = key-length s.album_id;
          percent_low = r.1;
          percent_high = r.2;
          position_low = p.0;
          position_high = p.1;
        }
