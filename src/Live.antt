-- ===== src/Live.antt =====
-- src/os9/casquinha.c: the state that the event loop keeps about the server, and the commands that it
-- sends. A transaction in flight is its selector. `TickCount` is read once per call, and the counters of
-- the status row are left out.
pub mod Play
pub mod Adopt
pub mod Poll
pub mod Keeps
pub mod Replies
pub mod Refusals
pub mod Cases
pub mod Runs
pub mod Acts
pub mod Wire
pub mod Pace
pub mod Cadence
pub mod Covers
mod Tests
use casquinha.Track.{TrackList}
use casquinha.DecRing.{sub32}
use casquinha.Now.{stopped, PlayState, Now}
use casquinha.Backoff.{Backoff}
use casquinha.View.{Intent}
use casquinha.Alloc.{Memory}
use casquinha.Guard.{Guard}
use casquinha.Prelude.Int.{pos, ltb_ℤ, signed32, ℤ}
use casquinha.Transport.{new}
use casquinha.Prelude.{
  false, true, take, [], bytes_eq, none, ◌&&◌, length, ltb, if◌then◌else◌, some, Option, Bytes, ℕ,
  Bool,
}

-- `gNativePlay`: 0, 1 and -1.
pub data Native : Type 0 where
  unprobed supported missing : Native

-- The globals; `snap` has a meaning from the first adoption on, and `overrun` tells that a selector was
-- written past the end of its buffer.
pub record Live : Type 0 where
  pub guard : Guard
  pub backoff : Backoff
  pub snap : Now
  pub have_snap : Bool
  pub snap_tick : ℕ
  pub online : Bool
  pub last_msg : Bytes
  pub last_poll : ℕ
  pub intent : Intent
  pub intent_ticks : ℕ
  pub pre_track_id : Bytes
  pub pre_state : PlayState
  pub queue : TrackList
  pub native_play : Native
  pub fallback_uri : Bytes
  pub auto_nexted : Bool
  pub auto_start : Bool
  pub auto_woke : Bool
  pub auto_play_pending : Bool
  pub queue_kick : ℕ
  pub vol_hold : ℕ
  pub cmd : Option Bytes
  pub fire : Option Bytes
  pub last_action : Bytes
  pub last_action_tick : ℕ
  pub overrun : Bool

-- `(long)(a - b)` of two tick counts
abbrev pub tick_diff : ℕ → ℕ → ℤ
tick_diff a b = signed32 (sub32 a b)

-- `SetIntent`
unfoldable pub set_intent : ℕ → Intent → Live → Live
set_intent now kind l = record l {
  intent = kind;
  intent_ticks = now;
  pre_track_id =
      if l.have_snap then elim l.snap.track_id [ none ↦ [] | some id ↦ take 23 id ] else [];
  pre_state = if l.have_snap then l.snap.state else stopped;
}

-- `ActionRepeat`: the state, and whether the action is swallowed.
unfoldable pub action_repeat : ℕ → Bytes → Live → Live × Bool
action_repeat now sel l =
    if ltb 0 (length l.last_action)
      && bytes_eq sel l.last_action
      && ltb_ℤ (tick_diff now l.last_action_tick) (pos 40)
    then (l, true)
    else (record l { last_action = take 239 sel; last_action_tick = now }, false)

-- `cq_tx_new` and `cq_tx_start`: what is in flight then.
abbrev pub begin : Memory → Bytes → Option Bytes × Memory
begin m sel =
    let (t, m') = new m none (pos 70) (some sel) in
    (elim t [ none ↦ none | some t' ↦ some sel ], m')

-- `StartCommand`: dropped while a command is in flight.
unfoldable pub start_command : Memory → Bytes → Live → Live × Memory
start_command m sel l =
    let (t, m') = begin m sel in elim l.cmd [ some c ↦ (l, m) | none ↦ (record l { cmd = t }, m') ]

-- `StartFire`
unfoldable pub start_fire : Memory → ℕ → Bytes → Live → Live × Memory
start_fire m now sel l =
    let (l', swallowed) = action_repeat now sel l in
    let (t, m') = begin m sel in
    if swallowed
    then (l', m)
    else elim l'.fire [ some c ↦ (l', m) | none ↦ (record l' { fire = t }, m') ]
