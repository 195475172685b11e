-- ===== src/Track.antt =====
-- src/cq_track.c: the rows `item.<i>.*` of a queue, a search or a playlist.
pub mod List
mod Tests
use casquinha.Prelude.{ℕ, suc, Option, some, length, Bytes, codes}
use casquinha.Prelude.Int.{ℤ}
use casquinha.Alloc.{Memory, dup_or_null}
use casquinha.Codec
use casquinha.Codec.{Fields}
use casquinha.Rows.{row_key, RowList, no_rows, scan}

-- `cq_track_item`
pub record TrackItem : Type 0 where
  pub uri : Option Bytes
  pub track : Option Bytes
  pub artist : Option Bytes
  pub album_id : Option Bytes
  pub duration_ms : ℤ

-- `cq_track_list`
abbrev pub TrackList : Type 0
TrackList = RowList TrackItem

-- `field_for`
pub field_for : Fields → ℕ → Bytes → Option Bytes
field_for f i suffix = Codec.get f (row_key 64 (codes "item") i suffix)

-- Row `i`, whose uri was found.
pub read_row : Fields → Memory → ℕ → Bytes → TrackItem × Memory
read_row f m i uri =
    let (uri', m₁) = dup_or_null m (some uri) in
    let (track, m₂) = dup_or_null m₁ (field_for f i (codes "track")) in
    let (artist, m₃) = dup_or_null m₂ (field_for f i (codes "artist")) in
    let (album_id, m₄) = dup_or_null m₃ (field_for f i (codes "album_id")) in
    (
      record {
        uri = uri';
        track = track;
        artist = artist;
        album_id = album_id;
        duration_ms = Codec.parse_ll (field_for f i (codes "duration_ms"));
      },
      m₄,
    )

-- `cq_track_list_from_fields`, with fuel for one round more than there are fields; `none` if the
-- fuel ran out.
pub from_fields : Memory → Fields → Option (TrackList × Memory)
from_fields m f =
    scan (λ i. field_for f i (codes "uri")) (read_row f) (suc (length f.items)) m 0 no_rows

-- `cq_track_list_from_response`
pub from_response : Memory → Bytes → Option (TrackList × Memory)
from_response m bytes = let (f, m') = Codec.parse m Codec.init bytes in from_fields m' f

-- `cq_track_list_free`
pub free : TrackList → TrackList
free l = no_rows
