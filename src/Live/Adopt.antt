-- ===== src/Live/Adopt.antt =====
-- src/os9/casquinha.c: `AdoptReply`, the one way in which a reply of the server changes what is shown.
use casquinha.Live.Play.{play_from}
use casquinha.App.{esc_into, queue_next_row}
use casquinha.Alloc.{Memory}
use casquinha.Live.{
  missing, supported, start_fire, set_intent, some, pos, start_command, tick_diff, ltb_ℤ, Live,
}
use casquinha.Prelude.{
  Option, ◌^◌, ◌%◌, ◌++◌, ◌+◌, take, length, none, [], codes, not, ltb, bytes_eq, false, ◌&&◌, true,
  Bytes, if◌then◌else◌, ℕ, Bool,
}
use casquinha.Codec
use casquinha.Codec.{Fields}
use casquinha.Backoff
use casquinha.Guard.{accept_ts}
use casquinha.View.{Intent}
use casquinha.Now.{is_word, is_playing, DevState, PlayState, Now, from_fields}
use casquinha.Prelude.Int.{ℤ, ◌-ℤ◌}
use casquinha.Now.{stopped, playing, paused, active}

-- A reply with an `error` field.
unfoldable pub error_reply : Memory → ℕ → Bytes → Bool → Live → Live × Memory
error_reply m now err is_cmd l =
    if bytes_eq err (codes "rate_limited")
    then (record l { last_msg = codes "Spotify busy - holding steady" }, m)
    else if is_cmd && bytes_eq err (codes "not_found") && ltb 0 (length l.fallback_uri)
    then start_fire m now (take 191 (codes "/spot/play?uri=" ++ esc_into l.fallback_uri 128 true))
        (record l { native_play = missing; fallback_uri = [] })
    else (
      record l {
        last_msg = take 127 (codes "server error: " ++ err);
        backoff = Backoff.fail l.backoff;
      },
      m,
    )

-- A healthy reply to a command that plays a list tells that the server knows it.
unfoldable pub note_native : Bool → Live → Live
note_native is_cmd l =
    if is_cmd && ltb 0 (length l.fallback_uri)
    then record l { native_play = supported; fallback_uri = [] }
    else l

abbrev pub is_stopped : PlayState → Bool
is_stopped stopped = true
is_stopped _ = false

-- The track has come within ten seconds of its end.
abbrev pub near_end : Now → Bool
near_end n = ltb_ℤ (pos 0) n.duration_ms && not (ltb_ℤ n.position_ms (n.duration_ms -ℤ pos 10000))

-- The condition of the end-of-track watchdog, for the snapshot `tmp` that is about to be adopted.
unfoldable pub track_ended : Now → Live → Bool
track_ended tmp l =
    is_stopped tmp.state
    && not l.auto_nexted
    && l.have_snap
    && is_playing l.snap.state
    && near_end l.snap

-- The watchdog: it plays the row after the track that has ended.
unfoldable pub watchdog : Memory → ℕ → Now → Live → Live × Memory
watchdog m now tmp l =
    let row = queue_next_row l.queue.items l.snap.track_id in
    let played = play_from m now l.queue row none (record l { auto_nexted = true }) in
    if track_ended tmp l
    then (if ltb_ℤ row (pos 0) then (record l { auto_nexted = true }, m) else played)
    else if is_playing tmp.state
    then (record l { auto_nexted = false }, m)
    else (l, m)

-- A new track asks for the queue two seconds later.
unfoldable pub kick_queue : ℕ → Now → Live → Live
kick_queue now tmp l = elim tmp.track_id [
  | none ↦ l
  | some id ↦
      if is_word l.snap.track_id id then l else record l { queue_kick = (now + 120) % 2 ^ 32 }
]

-- The same document again, from a cache of the server.
unfoldable pub same_ts : Now → Bool → Now → Bool
same_ts tmp have_snap snap =
    have_snap && ltb_ℤ (pos 0) tmp.ts && not (ltb_ℤ tmp.ts snap.ts) && not (ltb_ℤ snap.ts tmp.ts)

-- The snapshot itself; the same timestamp again does not move the anchor of the progress bar.
unfoldable pub take_snap : ℕ → Now → Live → Live
take_snap now tmp l = record l {
  snap = tmp;
  have_snap = true;
  snap_tick = if same_ts tmp l.have_snap l.snap then l.snap_tick else now;
  last_msg = [];
}

-- The volume of a drag that is under way.
unfoldable pub hold_volume : Bool → ℤ → Live → Live
hold_volume held kept l = record l {
  snap = if held then record l.snap { volume = kept } else l.snap;
}

-- What the application does by itself, once, on the first snapshot.
unfoldable pub auto_start_on : Memory → ℕ → DevState → PlayState → Live → Live × Memory
auto_start_on m now active playing l = (l, m)
auto_start_on m now active paused l =
    start_command m (codes "/spot/api/1/play") (set_intent now Intent.play l)
auto_start_on m now active stopped l = (record l { auto_play_pending = true }, m)
auto_start_on m now device state l =
    start_command m (codes "/spot/api/1/wake?play=1") (set_intent now Intent.play l)

unfoldable pub auto_begin : Memory → ℕ → Live → Live × Memory
auto_begin m now l =
    if l.auto_start && not l.auto_woke
    then auto_start_on m now l.snap.device l.snap.state (record l { auto_woke = true })
    else (l, m)

-- The wait for the queue ends when playback has begun without it.
unfoldable pub recovered : Live → Live
recovered l =
    if l.auto_play_pending && is_playing l.snap.state
    then record l { auto_play_pending = false }
    else l

-- The adoption of a snapshot that the guard has accepted.
unfoldable pub adopt : Memory → ℕ → Now → Live → Live × Memory
adopt m now tmp l =
    let held = ltb_ℤ (tick_diff now l.vol_hold) (pos 0) in
    let (l₁, m₁) = watchdog m now tmp l in
    let l₂ = hold_volume held l.snap.volume (take_snap now tmp (kick_queue now tmp l₁)) in
    let (l₃, m₂) = auto_begin m₁ now l₂ in (recovered l₃, m₂)

-- The snapshot of a reply without an error: the backoff, and the verdict of the guard.
unfoldable pub settle : Memory → ℕ → Now → Live → Live × Memory
settle m now tmp l =
    let (guard', accepted) = accept_ts l.guard tmp.ts in
    let l' = record l { backoff = Backoff.ok l.backoff; guard = guard' } in
    if accepted then adopt m now tmp l' else (l', m)

-- A reply without an error.
unfoldable pub healthy_reply : Memory → ℕ → Now → Bool → Live → Live × Memory
healthy_reply m now tmp is_cmd l = settle m now tmp (note_native is_cmd l)

-- The reply by its error: none, or a code.
unfoldable pub judge : Memory → Memory → ℕ → Option Bytes → Now → Bool → Live → Live × Memory
judge m m' now (some err) tmp is_cmd l = error_reply m now err is_cmd l
judge m m' now none tmp is_cmd l = healthy_reply m' now tmp is_cmd l

-- `AdoptReply`
unfoldable pub adopt_reply : Memory → ℕ → Bytes → Bool → Live → Live × Memory
adopt_reply m now d is_cmd l =
    let (f, m₁) = Codec.parse m Codec.init d in
    let (tmp, m₂) = from_fields m₁ f in
    judge m₁ m₂ now (Codec.get f (codes "error")) tmp is_cmd (record l { online = true })
