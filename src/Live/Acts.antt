-- ===== src/Live/Acts.antt =====
-- What the application asks of the server by itself, when a reply brings a snapshot.
use casquinha.Codec
use casquinha.Backoff
use casquinha.Live.Cases.{reply, snapshot, Reply}
use casquinha.Live.{some, Now, Live}
use casquinha.Prelude.{
  ◌||◌, bytes_eq, none, false, not, ◌==◌, Bytes, ℕ, true, ◌&&◌, Option, ◌≡◌, Bool,
}

-- The requests: the command and the fire in flight, and when the last intent and the last action were.
abbrev Requests : Type 0
Requests = Option Bytes × Option Bytes × ℕ × ℕ

abbrev requests : Live → Requests
requests l = (l.cmd, l.fire, l.intent_ticks, l.last_action_tick)

-- They and the wait for the queue, after which the launch plays its head.
abbrev stance : Live → Requests × Bool
stance l = (requests l, l.auto_play_pending)

abbrev same_selector : Option Bytes → Option Bytes → Bool
same_selector none none = true
same_selector (some a) (some b) = bytes_eq a b
same_selector _ _ = false

abbrev same_requests : Requests → Requests → Bool
same_requests (c, f, i, a) (c', f', i', a') =
    same_selector c c' && same_selector f f' && i == i' && a == a'

abbrev waits : Live → Live → Bool
waits l l' = not l.auto_play_pending && l'.auto_play_pending

-- A reply without an error makes the application ask for something, claim the intent to, or begin to
-- wait for the queue.
abbrev pub acts_of : Option Now → Live → Live → Bool
acts_of none l l' = false
acts_of (some tmp) l l' = not (same_requests (requests l) (requests l')) || waits l l'

abbrev pub acts : Live → Reply → Bool
acts l r = acts_of (snapshot r) l (reply l r)

-- A state that has asked for nothing.
IsIdle : Live → Live → Type 0
IsIdle l l' = (requests l' ≡ requests l) × (waits l l' ≡ false)
