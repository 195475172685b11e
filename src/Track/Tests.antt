-- ===== src/Track/Tests.antt =====
-- Runs of the track list.
use casquinha.Prelude.{ℕ, some, [], ◌∷◌, ◌≡◌, arith, codes}
use casquinha.Codec.{Fields}
use casquinha.Rows.Gap.{FirstGap}
use casquinha.Track.{TrackList, from_fields}
use casquinha.Track.List.{uri_key, rows_of, from_fields-rows}

-- Two rows, and one behind a gap.
abbrev queue : Fields
queue = record {
  items =
      record { key = codes "queue_len"; value = codes "9" }
      ∷ record { key = codes "item.0.uri"; value = codes "u0" }
      ∷ record { key = codes "item.1.uri"; value = codes "u1" }
      ∷ record { key = codes "item.1.duration_ms"; value = codes "1500" }
      ∷ record { key = codes "item.3.uri"; value = codes "u3" }
      ∷ [];
  cap = 8;
}

from_fields-rows_example :
    (n : ℕ) × (r : TrackList) × FirstGap queue.items uri_key 0 n
    × (from_fields [] queue ≡ some (r, []))
    × (r.items ≡ rows_of queue n)
from_fields-rows_example = from_fields-rows queue (omega arith)
