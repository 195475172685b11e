-- ===== src/App/Scene.antt =====
-- os9/casquinha.c: the input of the view, built from the application's globals.
use casquinha.Prelude.{ℕ, ◌*◌, Bool, not, ◌&&◌, none, some, Bytes, ◌==◌, if◌then◌else◌}
use casquinha.Prelude.Int.{ℤ, negsuc, signed32}
use casquinha.Now.{Now, PlayState}
use casquinha.DecRing.{sub32}
use casquinha.Audio.{audio_chunk}
use casquinha.View.{Input, Engine, off, tuning, buffering, on_air, Intent}

-- `CQ_AUD_PREBUF_PCM`
abbrev pub prebuffer : ℕ
prebuffer = 384 * 1024

-- The states of the audio engine.
pub data AudioState : Type 0 where
  au_idle au_http au_sync au_play : AudioState

-- The globals that `BuildViewIn` reads; `stream_probe` is whether `gStreamProbe` is 1.
pub record Globals : Type 0 where
  pub have_snap : Bool
  pub snap : Now
  pub snap_tick : ℕ
  pub stream_probe : Bool
  pub have_fact : Bool
  pub fact_live : ℤ
  pub fact_ts : ℤ
  pub audio_state : AudioState
  pub playing : Bool
  pub ring_wr : ℕ
  pub ring_rd : ℕ
  pub stream : Bool
  pub rx_tick : ℕ
  pub starve_tick : ℕ
  pub intent : Intent
  pub intent_ticks : ℕ
  pub pre_track_id : Bytes
  pub pre_state : PlayState

-- The phase of the engine for the view.
pub engine_of : AudioState → Bool → Engine
engine_of au_idle playing = off
engine_of au_http playing = tuning
engine_of au_sync playing = tuning
engine_of au_play playing = if playing then on_air else buffering

-- `BuildViewIn` at the tick count `now`.
unfoldable pub build_view_in : Globals → ℕ → Input
build_view_in g now = record {
  snap = if g.have_snap then some g.snap else none;
  snap_ticks = g.snap_tick;
  has_stream_fact = g.stream_probe && g.have_fact;
  live = g.fact_live;
  fact_ts = g.fact_ts;
  engine = engine_of g.audio_state g.playing;
  ring_fill = sub32 g.ring_wr g.ring_rd;
  prebuf_target = prebuffer;
  chunk_bytes = audio_chunk;
  rx_dry_ticks =
      if g.stream && not (g.rx_tick == 0) then signed32 (sub32 now g.rx_tick) else negsuc 0;
  starve_ticks = if g.starve_tick == 0 then negsuc 0 else signed32 (sub32 now g.starve_tick);
  intent = g.intent;
  intent_ticks = g.intent_ticks;
  pre_track_id = g.pre_track_id;
  pre_state = g.pre_state;
  now_ticks = now;
}
