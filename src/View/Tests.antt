-- ===== src/View/Tests.antt =====
-- Scenes of the player area.
use casquinha.Prelude.{◌-◌, ◌≡◌, ◌↔◌, refl, arith, true, false, some, none, [], codes, ◌^◌}
use casquinha.Prelude.Int.{pos, negsuc, ◌-ℤ◌, ◌+ℤ◌}
use casquinha.Prelude.Decimal.{print_int, decimal}
use casquinha.Now.{Now, playing, active}
use casquinha.View.{
  Input, View, on_air, buffering, skip, intent_reflected, fact_usable, playing_active,
  mount_anomaly, tail_status, silent_fact, percent, readout_in, readout, is_pending, state_word_of,
  position_of, render, differs,
}
use casquinha.View.Differs.{shown, differs_iff}
use casquinha.View.Bounds.{IsView, render-IsView}

abbrev song : Now
song = record {
  state = playing;
  track = some (codes "Alvorada");
  artist = none;
  album = none;
  album_id = some (codes "a1");
  track_id = some (codes "t1");
  position_ms = pos 1000;
  duration_ms = pos 200000;
  ts = pos 1700000000000;
  volume = pos 80;
  queue_len = pos 3;
  api_version = pos 1;
  device = active;
}

-- On air with a silent mount, half a second after a skip that the tick counter wrapped around in.
abbrev scene : Input
scene = record {
  snap = some song;
  snap_ticks = 2 ^ 32 - 60;
  has_stream_fact = true;
  live = pos 0;
  fact_ts = pos 1699999999000;
  engine = on_air;
  ring_fill = 88200;
  prebuf_target = 264600;
  chunk_bytes = 8192;
  rx_dry_ticks = pos 12;
  starve_ticks = negsuc 0;
  intent = skip;
  intent_ticks = 2 ^ 32 - 10;
  pre_track_id = codes "t1";
  pre_state = playing;
  now_ticks = 20;
}

render-scene : render scene ≡ record {
  state_word = codes "Skipping...";
  ack_active = true;
  title_green = true;
  status = codes "waiting for Spotify...";
  buffer_pct = negsuc 0;
  show_progress = true;
  position_ms = pos 2333;
  duration_ms = pos 200000;
  cover_key = codes "a1";
}
unfolding render readout readout_in mount_anomaly fact_usable playing_active tail_status silent_fact
    state_word_of is_pending intent_reflected position_of ◌+ℤ◌ ◌-ℤ◌
render-scene = refl

-- The prebuffer counts up while the mount carries audio.
count_up :
    (render (record scene { engine = buffering; live = pos 1 })).status ≡ codes "buffering... 33%"
unfolding render readout readout_in fact_usable playing_active silent_fact percent print_int decimal
    ◌-ℤ◌
count_up = refl

reflected : intent_reflected (record scene { pre_track_id = codes "t0" }) ≡ true
unfolding intent_reflected
reflected = refl

render-IsView_example : IsView (render scene)
render-IsView_example = render-IsView scene (omega arith)

abbrev frame : View
frame = record {
  state_word = codes "Playing";
  ack_active = false;
  title_green = true;
  status = codes "on air";
  buffer_pct = negsuc 0;
  show_progress = true;
  position_ms = pos 2333;
  duration_ms = pos 200000;
  cover_key = [];
}

differs_iff_example :
    (differs frame (record frame { position_ms = pos 2999 }) ≡ false)
    ↔ (shown frame ≡ shown (record frame { position_ms = pos 2999 }))
differs_iff_example = differs_iff frame (record frame { position_ms = pos 2999 })
