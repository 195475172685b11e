-- ===== src/Audio/Service.antt =====
-- os9/casquinha.c: `ServiceAudio`, the state machine of a listen, part by part. `TickCount` is read once,
-- and log lines are left out, with what only they read.
use casquinha.Prelude.{
  ℕ, Option, Bool, ◌++◌, [], ◌||◌, ◌+◌, leb, length, ltb, ◌==◌, ◌*◌, ◌-◌, false, ◌&&◌, suc, true,
  some, none, drop, not, if◌then◌else◌,
}
use casquinha.Transport.{Transport, is_running, drain}
use casquinha.DecTask.{Command}
use casquinha.Mp3.{Frame, sync}
use casquinha.App.Scene.{au_play, au_sync, prebuffer}
use casquinha.DecRing.{Ring, Env, pump, close, is_idle, backlog, add32}
use casquinha.Audio.{drain_stream}
use casquinha.View.{eq_ℤ}
use casquinha.Prelude.Int.{pos, signed32}
use casquinha.Audio.Listen.{
  Answers, Listen, Pass, comp_max, ring_target, trim_slack, header_end, hand_over, starved, same_rx,
  is_stream, is_play, is_http, is_sync, is_off, stop_audio, open_output, start_output, goes_on,
  over,
}

module _ {W : Type 0} where
  -- The wire while the channel plays: the feeder, and once more when the stream has ended.
  unfoldable pub last_fed : Option (Ring × Transport × ℕ) → Listen W → Option (Pass W)
  last_fed none l = none
  last_fed (some (r, t, rx)) l =
      some
        (goes_on (record l { stream = none; out = record l.out { ring = close r }; rx_total = rx }))

  unfoldable pub fed : Bool → Option (Ring × Transport × ℕ) → Listen W → Option (Pass W)
  fed runs none l = none
  fed true (some (r, t, rx)) l =
      some (goes_on (record l { stream = some t; out = record l.out { ring = r }; rx_total = rx }))
  fed false (some (r, t, rx)) l = last_fed (drain_stream r t rx) l

  unfoldable pub feed_play : Transport → Listen W → Option (Pass W)
  feed_play t l = fed (is_running t.status) (drain_stream l.out.ring t l.rx_total) l

  -- The wire before: the bytes are staged, and a stream that has ended ends the listen.
  unfoldable pub stage_wire : Bool → Transport → Listen W → Pass W
  stage_wire acks t l =
      let (t', bytes) = drain t (comp_max - length l.comp) in
      let l' = record l {
        stream = some t';
        comp = l.comp ++ bytes;
        rx_total = add32 l.rx_total (length bytes);
      } in
      if is_running t.status then goes_on l' else over (stop_audio acks l')

  -- The wire: nothing without a stream; else by whether the channel plays.
  unfoldable pub wire_on : Answers → Option Transport → Bool → Listen W → Option (Pass W)
  wire_on a none plays l = some (goes_on l)
  wire_on a (some t) true l = feed_play (a.polled t) l
  wire_on a (some t) false l = some (stage_wire a.acks (a.polled t) l)

  unfoldable pub wire : Answers → Listen W → Option (Pass W)
  wire a l = wire_on a l.stream (is_play l.state) l

  -- The response header, by where it ends.
  unfoldable pub cut_header : Bool → Option ℕ → Listen W → Pass W
  cut_header acks none l = if ltb 8192 (length l.comp) then over (stop_audio acks l) else goes_on l
  cut_header acks (some i) l = goes_on (record l { comp = drop (i + 4) l.comp; state = au_sync })

  unfoldable pub skip_header : Bool → Listen W → Pass W
  skip_header acks l =
      if is_http l.state && leb 4 (length l.comp)
      then cut_header acks (header_end l.comp) l
      else goes_on l

  -- The output is armed: the staged bytes go to the decode pipeline, and the task runs.
  unfoldable pub playing_with : Ring → Listen W → Listen W
  playing_with r l = record l {
    state = au_play;
    comp = [];
    out = record l.out { ring = r };
    dec_cmd = if l.mp_decode then Command.run else l.dec_cmd;
  }

  unfoldable pub handed_on : Option Ring → Listen W → Option (Pass W)
  handed_on none l = none
  handed_on (some r) l = some (goes_on (playing_with r l))

  unfoldable pub begin_play : Listen W → Option (Pass W)
  begin_play l = handed_on (hand_over (suc (length l.comp)) l.out.ring l.comp) l

  -- The output is open, or has been refused.
  unfoldable pub opened : Bool → Option (Listen W) → Listen W → Option (Pass W)
  opened acks none l = some (over (stop_audio acks l))
  opened acks (some armed) l = begin_play armed

  -- The search for the first confirmed frame, by what `cq_mp3_sync` finds.
  unfoldable pub framed : Answers → Option (ℕ × Frame) → Listen W → Option (Pass W)
  framed a none l =
      some (if ltb (32 * 1024) (length l.comp) then over (stop_audio a.acks l) else goes_on l)
  framed a (some (off, f)) l =
      let l' = record l { comp = drop off l.comp; fmt = f } in opened a.acks (open_output a l') l'

  unfoldable pub find_frame : Answers → Listen W → Option (Pass W)
  find_frame a l = if is_sync l.state then framed a (sync l.comp) l else some (goes_on l)

  -- The decision to start the channel.
  unfoldable pub start_when_full : Answers → Listen W → Listen W
  start_when_full a l =
      let fill = backlog l.out.ring in
      let (l', plays) = start_output a l in
      if not l.playing && (leb prebuffer fill || (not (is_stream l.stream) && ltb 0 fill))
      then (if plays then l' else stop_audio a.acks l')
      else l

  -- The ticks of the last silence and of the last byte.
  unfoldable pub note_ticks : ℕ → Listen W → Listen W
  note_ticks now l = record l {
    starve_tick = if starved l.seen_silences l.out.silences then now else l.starve_tick;
    seen_silences = l.out.silences;
    rx_tick = if same_rx l.rx_total l.seen_rx then l.rx_tick else now;
    seen_rx = some l.rx_total;
  }

  -- The latency trim: the interrupt is asked to pass over the excess.
  unfoldable pub ask_trim : Listen W → Listen W
  ask_trim l =
      let fill = backlog l.out.ring in
      if l.playing && eq_ℤ l.out.skip (pos 0) && ltb (ring_target + trim_slack) fill
      then record l {
        out = record l.out { skip = signed32 (fill - ring_target) };
        trims = add32 l.trims 1;
      }
      else l

  -- A stream that has ended and been played.
  unfoldable pub played_out : Bool → Listen W → Listen W
  played_out acks l =
      let r = l.out.ring in
      if not (is_stream l.stream) && is_idle r && l.playing && r.pcm_wr == r.pcm_rd
      then stop_audio acks l
      else l

  -- Playback after the pump.
  unfoldable pub play_on : Answers → Listen W → Listen W
  play_on a l =
      let l' = start_when_full a l in
      if is_play l'.state then played_out a.acks (ask_trim (note_ticks a.now l')) else l'

  -- What the inline pump leaves.
  unfoldable pub pumped : Answers → Option (Bool × Ring × W) → Listen W → Option (Listen W)
  pumped a none l = none
  pumped a (some (moved, r, w)) l =
      some (play_on a (record l { out = record l.out { ring = r }; world = w }))

-- Playback: the pump runs here when no task runs it.
unfoldable pub play : (e : Env) → Answers → Listen e.World → Option (Listen e.World)
play e a l =
    if not (is_play l.state)
    then some l
    else if l.mp_decode
    then some (play_on a l)
    else pumped a (pump e l.world l.out.ring) l

-- The parts after the search for a frame, after the header, and after the wire.
unfoldable pub after_frame : (e : Env) → Answers → Option (Pass e.World) → Option (Listen e.World)
after_frame e a none = none
after_frame e a (some (over l)) = some l
after_frame e a (some (goes_on l)) = play e a l

unfoldable pub after_header : (e : Env) → Answers → Pass e.World → Option (Listen e.World)
after_header e a (over l) = some l
after_header e a (goes_on l) = after_frame e a (find_frame a l)

unfoldable pub after_wire : (e : Env) → Answers → Option (Pass e.World) → Option (Listen e.World)
after_wire e a none = none
after_wire e a (some (over l)) = some l
after_wire e a (some (goes_on l)) = after_header e a (skip_header a.acks l)

-- `ServiceAudio`
unfoldable pub service_audio : (e : Env) → Answers → Listen e.World → Option (Listen e.World)
service_audio e a l = if is_off l.state then some l else after_wire e a (wire a l)
