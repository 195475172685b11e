-- ===== src/Now/Tests.antt =====
-- Runs of the snapshot.
use casquinha.Prelude.{none, some, List, [], ◌∷◌, Bytes, ◌≡◌, refl, arith, codes}
use casquinha.Prelude.Int.{pos, negsuc, ◌+ℤ◌, ◌-ℤ◌}
use casquinha.Codec.{Fields}
use casquinha.Codec.Document.{crlf, render, lookup_last}
use casquinha.Now.{Now, playing, paused, active, from_response, interpolated_position_ms}
use casquinha.Now.Response.{Values, Tells, told, from_response-told}
use casquinha.Prelude.Decimal.{decimal}

abbrev song : Now
song = record {
  state = playing;
  track = some (codes "Alvorada");
  artist = none;
  album = none;
  album_id = none;
  track_id = none;
  position_ms = pos 1000;
  duration_ms = pos 200000;
  ts = pos 1700000000000;
  volume = pos 80;
  queue_len = pos 3;
  api_version = pos 1;
  device = active;
}

runs :
    (interpolated_position_ms song (pos 1700000002500) ≡ pos 3500)
    × (interpolated_position_ms song (pos 1600000000000) ≡ pos 0)
    × (interpolated_position_ms song (pos 1800000000000) ≡ pos 200000)
unfolding interpolated_position_ms ◌+ℤ◌ ◌-ℤ◌
runs = (refl, refl, refl)

abbrev held : Now
held = record song { state = paused; position_ms = negsuc 0 }

abbrev fields : Fields
fields = record { items = record { key = codes "state"; value = codes "paused" } ∷ []; cap = 8 }

abbrev pairs : List (Bytes × Bytes)
pairs =
    (codes "ts", codes "5")
    ∷ (codes "mood", codes "blue")
    ∷ (codes "state", codes "stopped")
    ∷ (codes "position_ms", codes "1000")
    ∷ (codes "duration_ms", codes "200000")
    ∷ (codes "api", codes "1")
    ∷ (codes "device", codes "active")
    ∷ (codes "track", codes "Alvorada")
    ∷ (codes "queue_len", codes "3")
    ∷ (codes "state", codes "playing")
    ∷ []

abbrev values : Values
values = record {
  track = some (codes "Alvorada");
  artist = none;
  album = none;
  album_id = none;
  track_id = none;
  state = playing;
  device = active;
  position_ms = 1000;
  duration_ms = 200000;
  ts = 5;
  queue_len = 3;
  api = 1;
  volume = none;
}

pairs-Tells : Tells (λ k. lookup_last none k pairs) values
unfolding decimal
pairs-Tells = record {
  track = refl;
  artist = refl;
  album = refl;
  album_id = refl;
  track_id = refl;
  state = refl;
  device = refl;
  position = refl;
  duration = refl;
  ts = refl;
  queue = refl;
  api = refl;
  volume = refl;
  position_fits = omega arith;
  duration_fits = omega arith;
  ts_fits = omega arith;
  queue_fits = omega arith;
  api_fits = omega arith;
  volume_fits = tt;
}

from_response-told_example : (from_response [] (render crlf pairs)).0 ≡ told values
from_response-told_example = from_response-told crlf pairs values (ground arith) pairs-Tells
