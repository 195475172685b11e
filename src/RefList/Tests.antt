-- ===== src/RefList/Tests.antt =====
-- Runs of the reference list.
use casquinha.Prelude.{[], ◌∷◌, codes}
use casquinha.Codec.{Fields}

abbrev artists : Fields
artists = record {
  items =
      record { key = codes "artist.0.id"; value = codes "a0" }
      ∷ record { key = codes "artist.0.name"; value = codes "Cartola" }
      ∷ record { key = codes "album.0.id"; value = codes "b0" }
      ∷ [];
  cap = 8;
}
