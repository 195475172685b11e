-- ===== src/App/Tests.antt =====
-- Runs of the application's helpers.
use casquinha.Prelude.{◌≡◌, refl, true, false, some, none, [], ◌∷◌, codes}
use casquinha.Prelude.Int.{pos, negsuc}
use casquinha.Prelude.Decimal.{decimal}
use casquinha.Track.{TrackItem}
use casquinha.App.{
  esc_from, esc_into, find_char, leading_digits, atoi_sign, atoi, after_prefix, host_port,
  parse_http_url, album, track, no_row, result_kind_at, after_colon, is_track, next_row_from,
  queue_next_row, fmt_time,
}

escaped : esc_into (codes "a b:c") 64 true ≡ codes "a%20b:c"
unfolding esc_into esc_from
escaped = refl

-- A byte that may need three does not fit any more.
cut_off : esc_into (codes "abcdef") 6 false ≡ codes "abc"
unfolding esc_into esc_from
cut_off = refl

with_port :
    parse_http_url (codes "http://pi:8000/s.mp3") 64 64
    ≡ some (codes "pi", pos 8000, codes "/s.mp3")
unfolding parse_http_url host_port find_char after_prefix atoi atoi_sign leading_digits
with_port = refl

without_port :
    parse_http_url (codes "http://pi/a:9") 64 64 ≡ some (codes "pi", pos 80, codes "/a:9")
unfolding parse_http_url host_port find_char after_prefix atoi atoi_sign leading_digits
without_port = refl

no_path : parse_http_url (codes "http://pi") 64 64 ≡ none
unfolding parse_http_url host_port find_char after_prefix
no_path = refl

kinds :
    (result_kind_at false 0 2 3 4 (pos 4) ≡ album 2)
    × (result_kind_at false 0 2 3 4 (pos 5) ≡ track 0)
    × (result_kind_at true 3 2 3 4 (pos 4) ≡ no_row)
unfolding result_kind_at
kinds = (refl, refl, refl)

abbrev item : TrackItem
item = record {
  uri = some (codes "spotify:track:t1");
  track = none;
  artist = none;
  album_id = none;
  duration_ms = pos 0;
}

next : queue_next_row (item ∷ item ∷ []) (some (codes "t1")) ≡ pos 1
unfolding queue_next_row next_row_from is_track after_colon
next = refl

last : queue_next_row (item ∷ []) (some (codes "t1")) ≡ negsuc 0
unfolding queue_next_row next_row_from is_track after_colon
last = refl

clock : fmt_time 61000 ≡ codes "1:01"
unfolding fmt_time decimal
clock = refl
