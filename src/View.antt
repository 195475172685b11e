-- ===== src/View.antt =====
-- src/cq_view.c: what the player area shows, from one input. Ticks and byte counts are 32-bit
-- `unsigned long`s, `long long`s are integers, and the strings of the output are the bytes before
-- their final NUL.
pub mod Status
pub mod Word
pub mod Differs
pub mod Bounds
mod Tests
use casquinha.Prelude.{
  ℕ, ◌+◌, ◌-◌, ◌*◌, ◌/◌, ◌%◌, ◌^◌, Bool, true, false, not, ◌&&◌, ◌||◌, Option, none, some, [], ◌∷◌,
  ◌++◌, if◌then◌else◌, Bytes, bytes_eq, codes, ltb, ◌==◌, take,
}
use casquinha.Prelude.Int.{ℤ, pos, negsuc, pos_part, ltb_ℤ, ◌+ℤ◌, ◌-ℤ◌, wrap64, signed32, quot}
use casquinha.Prelude.Decimal.{print_int}
use casquinha.Now.{Now, PlayState, stopped, playing, paused, DevState, active, is_playing}

-- `cq_engine_phase` and `cq_intent_kind`
pub data Engine : Type 0 where
  off tuning buffering on_air : Engine

pub data Intent : Type 0 where
  nothing skip play pause : Intent

-- `cq_view_in`
pub record Input : Type 0 where
  pub snap : Option Now
  pub snap_ticks : ℕ
  pub has_stream_fact : Bool
  pub live : ℤ
  pub fact_ts : ℤ
  pub engine : Engine
  pub ring_fill : ℕ
  pub prebuf_target : ℕ
  pub chunk_bytes : ℕ
  pub rx_dry_ticks : ℤ
  pub starve_ticks : ℤ
  pub intent : Intent
  pub intent_ticks : ℕ
  pub pre_track_id : Bytes
  pub pre_state : PlayState
  pub now_ticks : ℕ

-- `cq_view`
pub record View : Type 0 where
  pub state_word : Bytes
  pub ack_active : Bool
  pub title_green : Bool
  pub status : Bytes
  pub buffer_pct : ℤ
  pub show_progress : Bool
  pub position_ms : ℤ
  pub duration_ms : ℤ
  pub cover_key : Bytes

-- The difference of two tick counts, as `unsigned long`.
abbrev pub ticks_since : ℕ → ℕ → ℕ
ticks_since now before = (now + 2 ^ 32 - before % 2 ^ 32) % 2 ^ 32

abbrev pub eq_ℤ : ℤ → ℤ → Bool
eq_ℤ a b = not (ltb_ℤ a b) && not (ltb_ℤ b a)

-- The snapshot says that it plays.
abbrev pub snap_playing : Option Now → Bool
snap_playing none = false
snap_playing (some s) = is_playing s.state

abbrev pub is_active : DevState → Bool
is_active active = true
is_active _ = false

-- `s->track_id != NULL && strcmp(s->track_id, id) != 0`
abbrev pub moved_off : Option Bytes → Bytes → Bool
moved_off none id = false
moved_off (some t) id = not (bytes_eq t id)

-- A pointer is not NULL.
abbrev pub given : {A : Type 0} → Option A → Bool
given none = false
given (some a) = true

abbrev pub snap_reflects : Now → Intent → Bytes → Bool
snap_reflects s nothing id = true
snap_reflects s skip [] = given s.track_id && is_playing s.state
snap_reflects s skip (c ∷ cs) = moved_off s.track_id (c ∷ cs)
snap_reflects s play id = is_playing s.state
snap_reflects s pause id = not (is_playing s.state)

-- `intent_reflected`
pub intent_reflected : Input → Bool
intent_reflected i = elim i.snap [ none ↦ false | some s ↦ snap_reflects s i.intent i.pre_track_id ]

-- `fact_usable`
pub fact_usable : Input → Bool
fact_usable i = if not i.has_stream_fact then false else elim i.snap [
  | none ↦ true
  | some s ↦ not (
      ltb_ℤ (pos 0) s.ts
      && ltb_ℤ (pos 0) i.fact_ts
      && ltb_ℤ (pos 30000) (wrap64 (s.ts -ℤ i.fact_ts)))
]

-- `playing_active`
pub playing_active : Input → Bool
playing_active i = elim i.snap [ none ↦ false | some s ↦ is_playing s.state && is_active s.device ]

-- `mount_anomaly`
pub mount_anomaly : Input → Bool
mount_anomaly i =
    if fact_usable i
    then eq_ℤ i.live (pos 0) && playing_active i
    else (snap_playing i.snap
        && not (ltb_ℤ i.rx_dry_ticks (pos 0))
        && not (ltb_ℤ i.rx_dry_ticks (pos 180)))

-- `tail_status`
pub tail_status : Input → Bytes
tail_status i =
    if ltb i.chunk_bytes i.ring_fill then codes "playing out..." else codes "standing by"

-- The ack text of a pending intent, and the word for a state.
abbrev pub ack_text : Intent → Bytes
ack_text skip = codes "Skipping..."
ack_text play = codes "Starting..."
ack_text _ = codes "Pausing..."

abbrev pub state_text : PlayState → Bytes
state_text playing = codes "Playing"
state_text paused = codes "Paused"
state_text stopped = codes "Stopped"

abbrev pub asks : Intent → Bool
asks nothing = false
asks _ = true

-- `pending` of `cq_view_render`: an intent younger than 480 ticks that the snapshot does not reflect.
pub is_pending : Input → Bool
is_pending i =
    asks i.intent
    && ltb_ℤ (signed32 (ticks_since i.now_ticks i.intent_ticks)) (pos 480)
    && not (intent_reflected i)

pub state_word_of : Input → Bytes
state_word_of i =
    if is_pending i
    then ack_text i.intent
    else elim i.snap [ none ↦ [] | some s ↦ state_text s.state ]

-- The percentage of the prebuffer that is filled.
pub percent : Input → ℤ
percent i =
    let target = if i.prebuf_target == 0 then 1 else i.prebuf_target in
    let pct = signed32 (i.ring_fill * 100 % 2 ^ 32 / target) in
    if ltb_ℤ (pos 99) pct then pos 99 else pct

-- The server says that nobody transmits.
pub silent_fact : Input → Bool
silent_fact i = fact_usable i && eq_ℤ i.live (pos 0)

-- The radio readout and `buffer_pct` in each phase of the engine.
pub readout_in : Engine → Input → Bytes × ℤ
readout_in off i = ([], negsuc 0)
readout_in tuning i = (codes "tuning in...", negsuc 0)
readout_in buffering i =
    if silent_fact i && playing_active i
    then (codes "waiting for Spotify...", negsuc 0)
    else (take 39 (codes "buffering... " ++ print_int (percent i) ++ b'%' ∷ []), percent i)
readout_in on_air i = (
  if given i.snap && not (snap_playing i.snap)
      then tail_status i
      else if mount_anomaly i
      then codes "waiting for Spotify..."
      else if silent_fact i
      then tail_status i
      else if not (ltb_ℤ i.starve_ticks (pos 0)) && ltb_ℤ i.starve_ticks (pos 120)
      then codes "buffering..."
      else codes "on air",
  negsuc 0,
)

pub readout : Input → Bytes × ℤ
readout i = readout_in i.engine i

-- The interpolated position: from the adoption of the snapshot on, within the track.
pub position_of : Input → Now → ℤ
position_of i s =
    let played = pos (ticks_since i.now_ticks i.snap_ticks * 1000 / 60) in
    let at = if is_playing s.state then wrap64 (s.position_ms +ℤ played) else s.position_ms in
    let low = if ltb_ℤ at (pos 0) then pos 0 else at in
    if ltb_ℤ (pos 0) s.duration_ms && ltb_ℤ s.duration_ms low then s.duration_ms else low

abbrev pub key_of : Option Bytes → Bytes
key_of none = []
key_of (some id) = take 63 id

-- `cq_view_render`
pub render : Input → View
render i =
    let (status, pct) = readout i in
    let base : View = record {
      state_word = state_word_of i;
      ack_active = is_pending i;
      title_green = snap_playing i.snap;
      status = status;
      buffer_pct = pct;
      show_progress = false;
      position_ms = pos 0;
      duration_ms = pos 0;
      cover_key = [];
    } in
    elim i.snap [
      | none ↦ base
      | some s ↦ record base {
        show_progress = ltb_ℤ (pos 0) s.duration_ms;
        position_ms = position_of i s;
        duration_ms = s.duration_ms;
        cover_key = key_of s.album_id;
      }
    ]

abbrev pub eq_bool : Bool → Bool → Bool
eq_bool true b = b
eq_bool false b = not b

-- `cq_view_differs`
pub differs : View → View → Bool
differs a b =
    not (bytes_eq a.state_word b.state_word)
    || not (bytes_eq a.status b.status)
    || not (bytes_eq a.cover_key b.cover_key)
    || not (eq_bool a.ack_active b.ack_active)
    || not (eq_bool a.title_green b.title_green)
    || not (eq_ℤ a.buffer_pct b.buffer_pct)
    || not (eq_bool a.show_progress b.show_progress)
    || not (eq_ℤ a.duration_ms b.duration_ms)
    || not (eq_ℤ (quot a.position_ms 1000) (quot b.position_ms 1000))
