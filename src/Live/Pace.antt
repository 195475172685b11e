-- ===== src/Live/Pace.antt =====
-- The backoff after a reply, and how soon a poll is due.
use casquinha.Guard.{accept_ts}
use casquinha.Live.Replies.{Core}
use casquinha.Live.Cases.{healthy-core, after}
use casquinha.Live.Keeps.{start_fire-shown, Shown}
use casquinha.Live.Poll.{still, broke, answered, Polled, pump_tx}
use casquinha.Live.{start_command, Live}
use casquinha.Now.{Now}
use casquinha.Alloc.{Memory}
use casquinha.Live.Adopt.{adopt_reply, error_reply, judge}
use casquinha.Backoff.{Backoff}
use casquinha.Prelude.Int.{negsuc, pos, ◌≤ℤ◌, ◌<ℤ◌, pattern_of, quot, ◌+ℤ◌, ℤ}
use casquinha.Guard.{accept_ts}
use casquinha.Prelude.{
  Option-both, sym, not, length, ltb, ◌&&◌, codes, bytes_eq, Bytes, Option, subst, arith, ◌^◌, leb,
  ℕ, Bool, ◌≡◌, refl, ◌∙◌, if-both, none, some, ap, true, false,
}
use casquinha.Backoff
use casquinha.Backoff.Bounds

-- The cadence: a valid backoff whose cap leaves room for the jitter.
pub record IsPaced (base : ℤ) (b : Backoff) : Type 0 where
  pub valid : Backoff.Bounds.IsValid b
  pub room : b.cap +ℤ quot b.cap 4 <ℤ pos (2 ^ 31)
  pub kept : b.base ≡ base

fail-IsPaced : {base : ℤ} {b : Backoff} → IsPaced base b → IsPaced base (Backoff.fail b)
unfolding Backoff.fail
fail-IsPaced h = record {
  valid = Backoff.Bounds.fail-IsValid h.valid;
  room = h.room;
  kept = h.kept;
}

ok-IsPaced : {base : ℤ} {b : Backoff} → IsPaced base b → IsPaced base (Backoff.ok b)
unfolding Backoff.ok
ok-IsPaced h = record { valid = Backoff.Bounds.ok-IsValid h.valid; room = h.room; kept = h.kept }

above :
    (z base : ℤ) (elapsed : ℕ)
    → pos 1 ≤ℤ base
    → base ≤ℤ z
    → z <ℤ pos (2 ^ 31)
    → leb (pattern_of 32 z) elapsed ≡ true
    → base ≤ℤ pos elapsed
above (pos n) base elapsed one le lt e = ground (arith, one, le, lt, e)
above (negsuc n) base elapsed one le lt e = absurd (ground (arith, one, le))

below :
    (b : Backoff) (z : ℤ)
    → Backoff.Bounds.IsValid b
    → z ≤ℤ b.current +ℤ quot b.current 4
    → b.cap +ℤ quot b.cap 4 <ℤ pos (2 ^ 31)
    → z <ℤ pos (2 ^ 31)
unfolding ◌+ℤ◌
below b z v q t = ground (arith, v.base_pos, v.base_le, v.capped, q, t)

-- A poll that is due comes no sooner than the healthy cadence allows.
pub due-base :
    {base : ℤ} (b : Backoff) (seed elapsed : ℕ)
    → IsPaced base b
    → leb (pattern_of 32 (Backoff.interval_seeded b seed)) elapsed ≡ true
    → base ≤ℤ pos elapsed
unfolding Backoff.interval
due-base b seed elapsed h e =
    let (lo, hi) = Backoff.Bounds.interval_seeded_bounds b seed h.valid h.room in
    subst (λ x. x ≤ℤ pos elapsed) h.kept
      (above (Backoff.interval_seeded b seed) b.base elapsed h.valid.base_pos
        (low (Backoff.interval_seeded b seed) h.valid.base_le lo)
        (below b (Backoff.interval_seeded b seed) h.valid hi h.room) e)
  where
    low : (z : ℤ) → b.base ≤ℤ b.current → b.current ≤ℤ z → b.base ≤ℤ z
    low z p q = ground (arith, p, q)

-- The backoff after a reply: as it was, reset, or one step longer.
judge-IsPaced :
    {base : ℤ} (m m' : Memory) (now : ℕ) (o : Option Bytes) (tmp : Now) (is_cmd : Bool) (l : Live)
    → IsPaced base l.backoff
    → IsPaced base (judge m m' now o tmp is_cmd l).0.backoff
unfolding judge error_reply
judge-IsPaced {base} m m' now (some err) tmp is_cmd l h =
    let P = λ (o : Live × Memory). IsPaced base o.0.backoff in
    if-both P (bytes_eq err (codes "rate_limited")) _ _ (λ _. h)
      (λ _.
        if-both P (is_cmd && bytes_eq err (codes "not_found") && ltb 0 (length l.fallback_uri)) _ _
          (λ _. subst (IsPaced base) (sym (ap (λ (x : Shown). x.1) (start_fire-shown m now _ _))) h)
          (λ _. fail-IsPaced h))
judge-IsPaced {base} m m' now none tmp is_cmd l h =
    subst (IsPaced base)
      (sym (
        ap (λ (c : Core). c.1) (healthy-core m' now tmp is_cmd l)
        ∙ reset (accept_ts l.guard tmp.ts).1))
      (ok-IsPaced h)
  where
    reset : (v : Bool) → (after v now tmp l).1 ≡ Backoff.ok l.backoff
    reset true = refl
    reset false = refl

pub pump_tx-IsPaced :
    {base : ℤ} (m : Memory) (now : ℕ) (says : Polled) (is_poll : Bool) (l : Live)
    → IsPaced base l.backoff
    → IsPaced base (pump_tx m now says is_poll l).0.0.backoff
unfolding pump_tx adopt_reply
pump_tx-IsPaced m now still is_poll l h = h
pump_tx-IsPaced m now (answered d) is_poll l h = judge-IsPaced _ _ now _ _ (not is_poll) _ h
pump_tx-IsPaced m now (broke msg) is_poll l h = fail-IsPaced h

pub start_command-pace :
    (m : Memory) (sel : Bytes) (l : Live)
    → let l' = (start_command m sel l).0 in (l'.backoff ≡ l.backoff) × (l'.last_poll ≡ l.last_poll)
unfolding start_command
start_command-pace m sel l =
    Option-both (λ (o : Live × Memory). (o.0.backoff ≡ l.backoff) × (o.0.last_poll ≡ l.last_poll))
      l.cmd _ _ (refl, refl) (λ c. (refl, refl))

pub last : (a b : Bool) → (a && b) ≡ true → b ≡ true
last a b e = ground (arith, e)
