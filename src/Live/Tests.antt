-- ===== src/Live/Tests.antt =====
-- The live loop on small documents.
use casquinha.Live.Wire.{action_repeat_iff, play_from_selector-fits}
use casquinha.Alloc.{dup_or_null}
use casquinha.Cache
use casquinha.Live.Poll.{Net, broke, pump_cover, wants_cover}
use casquinha.Cache.Residence.{puts}
use casquinha.Live.Covers.{cover_once}
use casquinha.Transport.{new, fresh}
use casquinha.Codec.{
  parse_sign, is_digit, digits_from, is_space, skip_spaces, dup_range, grow, append_field,
  overwrite, has_key, fields_put, put_line, split_tab, strip_cr, take_line, parse_lines,
}
use casquinha.App.{queue_next_row, next_row_from, is_track, after_colon}
use casquinha.Backoff
use casquinha.Codec
use casquinha.Guard.{accept_ts}
use casquinha.Live.Play.{
  more_ids, play_from_selector, send_play, id_of, play_ids, play_uri, row_uri, play_from,
}
use casquinha.Live.Adopt.{
  error_reply, recovered, auto_begin, hold_volume, same_ts, take_snap, kick_queue, track_ended,
  watchdog, adopt, settle, note_native, healthy_reply, judge, adopt_reply,
}
use casquinha.Live.Runs.{replies-forward, replies, IsOrdered}
use casquinha.Backoff.{mix, Backoff}
use casquinha.Live.Cases.{Reply}
use casquinha.Track.{TrackItem}
use casquinha.Prelude.{
  Option, ◌<◌, ◌↔◌, ◌^◌, length, ◌%◌, ◌++◌, replicate, ◌+◌, ◌≡◌, List, refl, true, false, none,
  some, [], ◌∷◌, codes, arith, inr, Bytes,
}
use casquinha.Prelude.Int.{◌≤ℤ◌, ◌-ℤ◌, pos, negsuc}
use casquinha.Now.{
  volume_from, device_from, state_from, from_fields, Now, stopped, playing, unknown,
}
use casquinha.View.{Intent}
use casquinha.Live.{new, start_command, action_repeat, Live, unprobed}

abbrev nothing_plays : Now
nothing_plays = record {
  state = stopped;
  track = none;
  artist = none;
  album = none;
  album_id = none;
  track_id = none;
  position_ms = pos 0;
  duration_ms = pos 0;
  ts = pos 0;
  volume = negsuc 0;
  queue_len = pos 0;
  api_version = pos 0;
  device = unknown;
}

-- A track near its end, heard at time 100.
abbrev ending : Now
ending = record nothing_plays {
  state = playing;
  track_id = some (codes "a");
  album_id = some (codes "cover");
  position_ms = pos 175000;
  duration_ms = pos 180000;
  ts = pos 100;
}

abbrev backoff : Backoff
backoff = record { base = pos 120; cap = pos 1800; current = pos 240 }

abbrev row : Bytes → TrackItem
row uri = record {
  uri = some uri;
  track = none;
  artist = none;
  album_id = none;
  duration_ms = pos 0;
}

abbrev live : Live
live = record {
  guard = record { last_ts = pos 100 };
  backoff = backoff;
  snap = ending;
  have_snap = true;
  snap_tick = 1000;
  online = true;
  last_msg = [];
  last_poll = 1000;
  intent = Intent.nothing;
  intent_ticks = 0;
  pre_track_id = [];
  pre_state = stopped;
  queue = record {
    items = row (codes "spotify:track:a") ∷ row (codes "spotify:track:b") ∷ [];
    cap = 2;
  };
  native_play = unprobed;
  fallback_uri = [];
  auto_nexted = false;
  auto_start = true;
  auto_woke = true;
  auto_play_pending = false;
  queue_kick = 0;
  vol_hold = 0;
  cmd = none;
  fire = none;
  last_action = [];
  last_action_tick = 0;
  overrun = false;
}

abbrev document : Bytes → Reply
document d = record { memory = []; tick = 1200; document = d; is_cmd = false }

-- The track ends, then an old document comes from a cache, then the server is busy.
abbrev history : List Reply
history =
    document (codes "state\tstopped\nts\t105\n")
    ∷ document (codes "state\tplaying\nts\t99\n")
    ∷ document (codes "error\trate_limited\n")
    ∷ []

live-IsOrdered : IsOrdered live
live-IsOrdered = record { mark = ground arith; latest = inr refl; seen = refl }

-- The watchdog plays the row after the one that has ended; nothing else is done twice.
whole_run :
    let l = replies live history in
    (l.cmd ≡ some (codes "/spot/api/1/play/from?ids=b&offset=0"))
    × (l.snap.ts ≡ pos 105)
    × (l.snap_tick ≡ 1200)
    × (l.auto_nexted ≡ true)
    × (l.backoff.current ≡ pos 120)
    × (l.last_msg ≡ codes "Spotify busy - holding steady")
unfolding adopt_reply judge healthy_reply note_native settle adopt watchdog track_ended play_from
    row_uri play_uri play_ids id_of send_play play_from_selector more_ids action_repeat
    start_command kick_queue take_snap same_ts hold_volume auto_begin recovered error_reply
    accept_ts Backoff.ok from_fields state_from device_from volume_from after_colon is_track
    next_row_from queue_next_row Codec.parse Codec.init Codec.get Codec.get_from Codec.parse_ll
    parse_lines take_line strip_cr split_tab put_line fields_put has_key overwrite append_field grow
    dup_range skip_spaces is_space digits_from is_digit parse_sign new fresh dup_or_null ◌-ℤ◌
whole_run = (refl, refl, refl, refl, refl, refl)

replies-forward_example : live.snap.ts ≤ℤ (replies live history).snap.ts
unfolding adopt_reply judge healthy_reply note_native settle adopt watchdog track_ended play_from
    row_uri play_uri play_ids id_of send_play play_from_selector more_ids action_repeat
    start_command kick_queue take_snap same_ts hold_volume auto_begin recovered error_reply
    accept_ts Backoff.ok from_fields state_from device_from volume_from after_colon is_track
    next_row_from queue_next_row Codec.parse Codec.init Codec.get Codec.get_from Codec.parse_ll
    parse_lines take_line strip_cr split_tab put_line fields_put has_key overwrite append_field grow
    dup_range skip_spaces is_space digits_from is_digit parse_sign new fresh dup_or_null ◌-ℤ◌
replies-forward_example = replies-forward live history live-IsOrdered (ground arith)

-- The launch has not acted yet.
abbrev launch : Live
launch = record live { auto_woke = false }

abbrev busy : Reply
busy = document (codes "error\trate_limited\n")

action_repeat_iff_example :
    let l = (action_repeat 1000 (codes "/x") live).0 in
    ((action_repeat ((1000 + 39) % 2 ^ 32) (codes "/x") l).1 ≡ true)
    ↔ ((39 < 40) × (0 < length (codes "/x")) × (length (codes "/x") < 240))
unfolding action_repeat
action_repeat_iff_example =
    action_repeat_iff 1000 39 (codes "/x") live (omega arith) (omega arith) refl

-- An action of 240 bytes is sent twice.
long_action :
    let sel : Bytes = replicate 240 b'x' in
    (action_repeat 1001 sel (action_repeat 1000 sel live).0).1 ≡ false
unfolding action_repeat
long_action = refl

play_from_selector-fits_example :
    play_from_selector (codes "a") (row (codes "spotify:track:b") ∷ [])
    ≡ some (
        codes "/spot/api/1/play/from?ids="
        ++ codes "a"
        ++ more_ids (26 + length (codes "a")) 1 (row (codes "spotify:track:b") ∷ [])
        ++ codes "&offset=0")
play_from_selector-fits_example =
    play_from_selector-fits (codes "a") (row (codes "spotify:track:b") ∷ []) (omega arith)

-- The id of the row that is clicked is copied without a test of its length.
overrun : (play_from_selector (replicate 875 b'x') []) ≡ none
unfolding play_from_selector
overrun = refl

-- A swallowed repeat leaves the fallback of a command that was never sent.
abbrev clicked : Live
clicked = (play_from [] 1000 live.queue (pos 0) none live).0

stale_fallback :
    (play_from [] 1010 live.queue
      (pos 0)
      none
      (record clicked { cmd = none; fallback_uri = [] })).0.fallback_uri
    ≡ codes "spotify:track:a"
unfolding play_from row_uri play_uri play_ids id_of send_play play_from_selector more_ids
    action_repeat start_command after_colon new fresh
stale_fallback = refl

abbrev net : Net Bytes
net = record {
  live = live;
  tx = none;
  covers = Cache.init;
  cover = some (codes "/spot/api/1/cover/cover/64");
  cover_req = codes "cover";
  deb = record { pending = none };
  cmd_fire = 0;
  suspended = false;
  qt_ok = true;
  search_tx = false;
  queue_tx = false;
  pls_tx = false;
  fact_tx = false;
}

-- Seven more covers have been taken since.
abbrev others : List (Option Bytes × Option Bytes)
others = replicate 7 (some (codes "other"), none)

abbrev later : Net Bytes
later = record net { covers = puts (pump_cover (λ d. some d) (broke []) net).covers others }

cover_once_example : wants_cover later (some (codes "cover")) ≡ false
unfolding Cache.init Cache.has Cache.key_find Cache.key_copy Cache.find_from
cover_once_example =
    cover_once (λ d. some d) (broke []) net later (codes "cover")
      (codes "/spot/api/1/cover/cover/64") others (record { storage = refl; within = omega arith })
      refl refl refl (ground arith) (omega arith) refl
