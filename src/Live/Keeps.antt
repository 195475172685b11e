-- ===== src/Live/Keeps.antt =====
-- What the commands leave alone.
use casquinha.Track.{TrackItem}
use casquinha.Live.Play.{row_uri, id_of, play_item, play_uri, play_from, send_play, play_ids}
use casquinha.Prelude.{
  bytes_eq, ◌&&◌, length, ltb, none, ◌∙◌, take, Option, List, Option-both, inr, inl, Bytes, ℕ, Bool,
  ◌≡◌, refl, if-both, Option-cases,
}
use casquinha.Live.{
  pos, tick_diff, ltb_ℤ, supported, unprobed, missing, some, ℤ, TrackList, Native, Now, Backoff,
  Memory, Live, start_command, Guard, start_fire, action_repeat,
}

-- What is shown, the guard, the cadence, and what the application has done by itself.
abbrev pub Shown : Type 0
Shown = Guard × Backoff × Now × Bool × ℕ × Bool × Bool × Bool × Bool

abbrev pub shown : Live → Shown
shown l = (
  l.guard, l.backoff, l.snap, l.have_snap, l.snap_tick, l.auto_nexted, l.auto_start, l.auto_woke,
  l.auto_play_pending,
)

pub action_repeat-shown :
    (now : ℕ) (sel : Bytes) (l : Live) → shown (action_repeat now sel l).0 ≡ shown l
unfolding action_repeat
action_repeat-shown now sel l =
    if-both (λ (o : Live × Bool). shown o.0 ≡ shown l) _ _ _ (λ _. refl) (λ _. refl)

pub start_command-shown :
    (m : Memory) (sel : Bytes) (l : Live) → shown (start_command m sel l).0 ≡ shown l
unfolding start_command
start_command-shown m sel l = elim (Option-cases l.cmd) [
  | inl e ↦ rw (e, start_command) refl
  | inr (c, e) ↦ rw (e, start_command) refl
]

-- What neither the transaction nor the last action is part of.
pub start_fire-keeps :
    {X : Type 0} (k : Live → X)
    → ((l : Live) (f : Option Bytes) → k (record l { fire = f }) ≡ k l)
    → ((l : Live) (a : Bytes) (t : ℕ)
        → k (record l { last_action = a; last_action_tick = t }) ≡ k l)
    → (m : Memory) (now : ℕ) (sel : Bytes) (l : Live) → k (start_fire m now sel l).0 ≡ k l
unfolding start_fire action_repeat
start_fire-keeps k fires noted m now sel l =
    let l' = (action_repeat now sel l).0 in
    let same : k l' ≡ k l =
      if-both (λ (o : Live × Bool). k o.0 ≡ k l)
        (ltb 0 (length l.last_action)
          && bytes_eq sel l.last_action
          && ltb_ℤ (tick_diff now l.last_action_tick) (pos 40))
        _ _ (λ _. refl) (λ _. noted l _ now) in
    if-both (λ (o : Live × Memory). k o.0 ≡ k l) (action_repeat now sel l).1 _ _ (λ _. same)
      (λ _.
        Option-both (λ (o : Live × Memory). k o.0 ≡ k l) l'.fire _ _ (fires l' _ ∙ same)
          (λ c. same))

pub start_fire-shown :
    (m : Memory) (now : ℕ) (sel : Bytes) (l : Live) → shown (start_fire m now sel l).0 ≡ shown l
start_fire-shown = start_fire-keeps shown (λ l f. refl) (λ l a t. refl)

play_item-shown :
    (m : Memory) (now : ℕ) (uri : Bytes) (l : Live) → shown (play_item m now uri l).0 ≡ shown l
unfolding play_item
play_item-shown m now uri l = start_fire-shown m now _ l

send_play-shown :
    (m : Memory) (now : ℕ) (uri : Bytes) (sel : Option Bytes) (l : Live)
    → shown (send_play m now uri sel l).0 ≡ shown l
unfolding send_play
send_play-shown m now uri none l = refl
send_play-shown m now uri (some sel) l =
    let noted : Live = record l { fallback_uri = take 127 uri } in
    let same = action_repeat-shown now sel noted in
    if-both (λ (o : Live × Memory). shown o.0 ≡ shown l) (action_repeat now sel noted).1 _ _
      (λ _. same) (λ _. start_command-shown m sel (action_repeat now sel noted).0 ∙ same)

play_ids-shown :
    (m : Memory) (now : ℕ) (uri : Bytes) (rest : List TrackItem) (l : Live)
    → shown (play_ids m now uri rest l).0 ≡ shown l
unfolding play_ids
play_ids-shown m now uri rest l =
    Option-both (λ (o : Live × Memory). shown o.0 ≡ shown l) l.cmd _ _
      (Option-both (λ (o : Live × Memory). shown o.0 ≡ shown l) (id_of (some uri)) _ _
        (play_item-shown m now uri l) (λ id. send_play-shown m now uri _ l))
      (λ c. refl)

play_uri-shown :
    (n : Native) (m : Memory) (now : ℕ) (uri : Bytes) (rest : List TrackItem) (l : Live)
    → l.native_play ≡ n
    → shown (play_uri m now uri rest l).0 ≡ shown l
unfolding play_uri
play_uri-shown missing m now uri rest l e = rw (e, play_uri) (play_item-shown m now uri l)
play_uri-shown unprobed m now uri rest l e = rw (e, play_uri) (play_ids-shown m now uri rest l)
play_uri-shown supported m now uri rest l e = rw (e, play_uri) (play_ids-shown m now uri rest l)

pub play_from-shown :
    (m : Memory) (now : ℕ) (items : TrackList) (row : ℤ) (cont : Option TrackList) (l : Live)
    → shown (play_from m now items row cont l).0 ≡ shown l
unfolding play_from
play_from-shown m now items row cont l =
    Option-both (λ (o : Live × Memory). shown o.0 ≡ shown l) (row_uri items row) _ _ refl
      (λ uri. play_uri-shown l.native_play m now uri _ l refl)
