-- ===== src/Live/Refusals.antt =====
-- What a reply with an error does.
use casquinha.Guard.{Guard}
use casquinha.Live.Keeps.{shown, Shown}
use casquinha.Live.{missing, Now, Live}
use casquinha.Prelude.{◌<◌, length, ◌++◌, take, ◌≢◌, [], ◌⊎◌, codes, Bytes, ℕ, Bool, ◌≡◌, true}
use casquinha.Backoff
use casquinha.Codec

-- What is on the screen, and what the application has done by itself.
abbrev Screen : Type 0
Screen = Guard × Now × Bool × ℕ × Bool × Bool × Bool × Bool

abbrev screen_of : Shown → Screen
screen_of (g, b, s, h, t, n, st, w, p) = (g, s, h, t, n, st, w, p)

abbrev pub screen : Live → Screen
screen l = screen_of (shown l)

-- The cadence after an error, by its code.
pub record IsRefusal (err : Bytes) (is_cmd : Bool) (l l' : Live) : Type 0 where
  pub kept : screen l' ≡ screen l
  pub cadence :
      ((err ≡ codes "rate_limited") × (l'.backoff ≡ l.backoff))
      ⊎ ((err ≡ codes "not_found")
          × (is_cmd ≡ true)
          × (0 < length l.fallback_uri)
          × (l'.backoff ≡ l.backoff)
          × (l'.native_play ≡ missing)
          × (l'.fallback_uri ≡ []))
      ⊎ ((err ≢ codes "rate_limited")
          × ¬ ((err ≡ codes "not_found") × (is_cmd ≡ true) × (0 < length l.fallback_uri))
          × (l'.backoff ≡ Backoff.fail l.backoff)
          × (l'.last_msg ≡ take 127 (codes "server error: " ++ err)))
