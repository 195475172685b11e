-- ===== src/Live/Replies.antt =====
-- What the adoption of a snapshot leaves behind.
use casquinha.Live.Play.{play_from}
use casquinha.App.{queue_next_row}
use casquinha.Guard.{Guard}
use casquinha.Live.{Intent, pos, PlayState, tick_diff, ltb_ℤ, set_intent, Backoff, Memory, Live}
use casquinha.Live.Keeps.{play_from-shown, start_command-shown, shown, Shown}
use casquinha.Live.Adopt.{
  same_ts, track_ended, hold_volume, take_snap, kick_queue, watchdog, auto_begin, auto_start_on,
  recovered, adopt,
}
use casquinha.Prelude.{
  not, if◌then◌else◌, ◌&&◌, ℕ, Bool, ◌≡◌, refl, ◌∙◌, if-both, none, Option-both, ap, true, false,
  ◌||◌,
}
use casquinha.Now.{
  is_playing, DevState, is_word, Now, stopped, playing, paused, active, idle, unknown,
}

-- The part of it that the launch does not wait for.
abbrev pub Core : Type 0
Core = Guard × Backoff × Now × Bool × ℕ × Bool × Bool × Bool

abbrev core_of : Shown → Core
core_of (a, b, c, d, e, f, g, h, i) = (a, b, c, d, e, f, g, h)

abbrev pub core : Live → Core
core l = core_of (shown l)

-- Whether the watchdog is spent after a snapshot.
abbrev pub nexted_after : Now → Live → Bool
nexted_after tmp l =
    if track_ended tmp l then true else if is_playing tmp.state then false else l.auto_nexted

pub watchdog-core :
    (m : Memory) (now : ℕ) (tmp : Now) (l : Live)
    → core (watchdog m now tmp l).0 ≡ core (record l { auto_nexted = nexted_after tmp l })
unfolding watchdog
watchdog-core m now tmp l = by_end (track_ended tmp l) (is_playing tmp.state)
  where
    spent : Live
    spent = record l { auto_nexted = true }

    by_end :
        (e p : Bool)
        → core
            (if e
              then (if ltb_ℤ (queue_next_row l.queue.items l.snap.track_id) (pos 0)
                  then (spent, m)
                  else play_from m now l.queue
                      (queue_next_row l.queue.items l.snap.track_id)
                      none
                      spent)
              else if p
              then (record l { auto_nexted = false }, m)
              else (l, m)).0
          ≡ core (record l { auto_nexted = if e then true else if p then false else l.auto_nexted })
    by_end true p =
        if-both (λ (o : Live × Memory). core o.0 ≡ core spent)
          (ltb_ℤ (queue_next_row l.queue.items l.snap.track_id) (pos 0)) _ _ (λ _. refl)
          (λ _. ap core_of (play_from-shown m now l.queue _ none spent))
    by_end false true = refl
    by_end false false = refl

pub kick_queue-core : (now : ℕ) (tmp : Now) (l : Live) → core (kick_queue now tmp l) ≡ core l
unfolding kick_queue
kick_queue-core now tmp l =
    Option-both (λ (x : Live). core x ≡ core l) tmp.track_id _ _ refl
      (λ id.
        if-both (λ (x : Live). core x ≡ core l) (is_word l.snap.track_id id) _ _ (λ _. refl)
          (λ _. refl))

start-core :
    (m : Memory) (now : ℕ) (d : DevState) (s : PlayState) (l : Live)
    → core (auto_start_on m now d s l).0 ≡ core l
unfolding auto_start_on set_intent
start-core m now active playing l = refl
start-core m now active paused l =
    ap core_of (start_command-shown m _ (set_intent now Intent.play l))
start-core m now active stopped l = refl
start-core m now unknown s l = ap core_of (start_command-shown m _ (set_intent now Intent.play l))
start-core m now idle s l = ap core_of (start_command-shown m _ (set_intent now Intent.play l))

auto_begin-core :
    (m : Memory) (now : ℕ) (l : Live)
    → core (auto_begin m now l).0 ≡ core (record l { auto_woke = l.auto_start || l.auto_woke })
unfolding auto_begin
auto_begin-core m now l = by_woke l.auto_start l.auto_woke refl refl
  where
    by_woke :
        (a b : Bool)
        → l.auto_start ≡ a
        → l.auto_woke ≡ b
        → core
            (if a && not b
              then auto_start_on m now l.snap.device l.snap.state (record l { auto_woke = true })
              else (l, m)).0
          ≡ core (record l { auto_woke = a || b })
    by_woke true false e f = start-core m now _ _ _
    by_woke true true e f = ap (λ (w : Bool). core (record l { auto_woke = w })) f
    by_woke false b e f = ap (λ (w : Bool). core (record l { auto_woke = w })) f

recovered-core : (l : Live) → core (recovered l) ≡ core l
unfolding recovered
recovered-core l =
    if-both (λ (x : Live). core x ≡ core l) (l.auto_play_pending && is_playing l.snap.state) _ _
      (λ _. refl) (λ _. refl)

-- The snapshot after a reply, with the volume of a drag.
abbrev pub shown_snap : ℕ → Now → Live → Now
shown_snap now tmp l =
    if ltb_ℤ (tick_diff now l.vol_hold) (pos 0) then record tmp { volume = l.snap.volume } else tmp

pub adopt-core :
    (m : Memory) (now : ℕ) (tmp : Now) (l : Live)
    → core (adopt m now tmp l).0 ≡ (
      l.guard,
      l.backoff,
      shown_snap now tmp l,
      true,
      (if same_ts tmp l.have_snap l.snap then l.snap_tick else now),
      nexted_after tmp l,
      l.auto_start,
      l.auto_start || l.auto_woke,
    )
unfolding adopt take_snap hold_volume
adopt-core m now tmp l =
    let w = (watchdog m now tmp l).0 in
    recovered-core _
    ∙ auto_begin-core _ now _
    ∙ ap next (kick_queue-core now tmp w ∙ watchdog-core m now tmp l)
  where
    next : Core → Core
    next (g, b, s, h, t, n, st, k) =
        (g, b, shown_snap now tmp l, true, (if same_ts tmp h s then t else now), n, st, st || k)
