-- ===== src/Pls/Tests.antt =====
-- Runs of the playlist parser.
use casquinha.Prelude.{◌≡◌, refl, some, false, [], ◌∷◌, ◌++◌, Bytes, codes, ◌⊎◌}
use casquinha.Pls.{
  starts_ci, lines, trim, file_entry, is_bare, offer, offer_bare, step, scan, first_url,
}
use casquinha.Pls.Choice.{Entry, entries, first_bare, IsFirstLeast, first_url-choice}

abbrev playlist : Bytes
playlist =
    codes "[playlist]"
    ++ 13 ∷ 10 ∷ codes "http://bare"
    ++ 10 ∷ codes "File2=http://b"
    ++ 10 ∷ codes " FILE1 = http://c"
    ++ 13 ∷ codes "file1= http://a "
    ++ 10 ∷ codes "File=http://d"

first_of_playlist : (first_url [] playlist).0 ≡ some (codes "http://a")
unfolding first_url scan step offer offer_bare file_entry is_bare trim lines starts_ci
first_of_playlist = refl

-- An M3U file has bare lines only.
m3u :
    (first_url [] (codes "#EXTM3U" ++ 10 ∷ codes "https://x" ++ 10 ∷ codes "https://y")).0
    ≡ some (codes "https://x")
unfolding first_url scan step offer offer_bare file_entry is_bare trim lines starts_ci
m3u = refl

-- Without memory for the first entry the second is taken.
starved : (first_url (false ∷ []) (codes "File1=a" ++ 10 ∷ codes "File2=b")).0 ≡ some (codes "b")
unfolding first_url scan step offer offer_bare file_entry is_bare trim lines starts_ci
starved = refl

first_url-choice_example :
    ((entries (lines playlist) ≡ []) × ((first_url [] playlist).0 ≡ first_bare (lines playlist)))
    ⊎ ((e : Entry) × IsFirstLeast (entries (lines playlist)) e
        × ((first_url [] playlist).0 ≡ some e.1))
first_url-choice_example = first_url-choice playlist
