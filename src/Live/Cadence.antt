-- ===== src/Live/Cadence.antt =====
-- When the loop sends its polls.
use casquinha.Live.Poll.{is_some, still, broke, answered, Polled, Net}
use casquinha.Live.{sub32, Live}
use casquinha.Backoff.{Backoff}
use casquinha.Prelude.Int.{pos, ◌≤ℤ◌, ℤ}
use casquinha.Prelude.{◌⊎◌, if◌then◌else◌, Bytes, Option, ℕ, ◌≡◌, true, false}
use casquinha.Backoff
use casquinha.Debounce
use casquinha.Live.Pace.{last}

module _ {V : Type 0} where
  -- What the last poll and the cadence are, and the poll in flight.
  abbrev pace : Net V → Backoff × ℕ × Option Bytes
  pace n = (n.live.backoff, n.live.last_poll, n.tx)

  -- The last poll, or the reply to a command that this pass adopts.
  abbrev pub last_news : ℕ → Polled → Net V → ℕ
  last_news now (answered d) n = if is_some n.live.cmd then now else n.live.last_poll
  last_news now still n = n.live.last_poll
  last_news now (broke msg) n = n.live.last_poll

  -- A poll begins, no sooner than the cadence after `last`, and is noted; or none does, and the last one
  -- noted stays, or is now when the memory for a new one is refused.
  pub IsCadence : ℤ → ℕ → ℕ → Net V → Type 0
  IsCadence base now last n =
      ((is_some n.tx ≡ true) × (base ≤ℤ pos (sub32 now last)) × (n.live.last_poll ≡ now))
      ⊎ ((is_some n.tx ≡ false) × ((n.live.last_poll ≡ last) ⊎ (n.live.last_poll ≡ now)))
