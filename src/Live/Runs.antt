-- ===== src/Live/Runs.antt =====
-- Whole runs of replies: what is shown never goes back, and how often the two latches of the application
-- are set.
use casquinha.Live.Adopt.{is_stopped, track_ended}
use casquinha.Prelude.Int.{◌<ℤ◌, ◌≤ℤ◌}
use casquinha.Live.Cases.{snapshot, after, reply-cases, reply, Reply}
use casquinha.Live.Replies.{core, shown_snap, Core}
use casquinha.Live.{Backoff, tick_diff, ltb_ℤ, pos, ℤ, Live}
use casquinha.Now.{is_playing, Now}
use casquinha.Prelude.{
  Option, not, ◌≤◌, if◌then◌else◌, ◌&&◌, ◌+◌, sym, arith, subst, inr, inl, ◌⊎◌, if-both, ℕ, Bool,
  ◌≡◌, refl, none, some, ap, true, false, ◌||◌, List, [], ◌∷◌, suc,
}
use casquinha.Guard.{Guard, accept_ts}

abbrev pub replies : Live → List Reply → Live
replies l [] = l
replies l (r ∷ rs) = replies (reply l r) rs

-- A known timestamp on the screen is the mark of the guard.
pub record IsOrdered (l : Live) : Type 0 where
  pub mark : pos 0 ≤ℤ l.guard.last_ts
  pub latest : (l.snap.ts ≤ℤ pos 0) ⊎ (l.snap.ts ≡ l.guard.last_ts)
  pub seen : l.have_snap ≡ true

shown_snap-ts : (now : ℕ) (tmp : Now) (l : Live) → (shown_snap now tmp l).ts ≡ tmp.ts
shown_snap-ts now tmp l =
    if-both (λ (n : Now). n.ts ≡ tmp.ts) (ltb_ℤ (tick_diff now l.vol_hold) (pos 0)) _ _ (λ _. refl)
      (λ _. refl)

-- The guard, the snapshot and whether there is one.
abbrev Front : Type 0
Front = Guard × ℤ × Bool

abbrev front_of : Core → Front
front_of (g, b, s, h, t, n, st, w) = (g, s.ts, h)

abbrev Holds : ℤ → Front → Type 0
Holds bound (g, ts, h) =
    (pos 0 ≤ℤ g.last_ts) × ((ts ≤ℤ pos 0) ⊎ (ts ≡ g.last_ts)) × (h ≡ true) × (bound ≤ℤ g.last_ts)

after-Holds :
    (v : Bool) (now : ℕ) (tmp : Now) (l : Live)
    → (accept_ts l.guard tmp.ts).1 ≡ v
    → IsOrdered l
    → Holds l.guard.last_ts (front_of (after v now tmp l))
unfolding accept_ts
after-Holds true now tmp l e h = ground (arith, e, h.mark, shown_snap-ts now tmp l)
after-Holds false now tmp l e h = ground (arith, e, h.mark, h.latest, h.seen)

reply-Holds :
    (l : Live) (r : Reply) → IsOrdered l → Holds l.guard.last_ts (front_of (core (reply l r)))
reply-Holds l r h = elim (reply-cases l r) [
  | inl (e, (b, same)) ↦
      subst (Holds l.guard.last_ts) (ap front_of (sym same))
        (h.mark, h.latest, h.seen, ground arith)
  | inr (tmp, e, same) ↦
      subst (Holds l.guard.last_ts) (ap front_of (sym same)) (after-Holds _ r.tick tmp l refl h)
]

reply-IsOrdered : (l : Live) (r : Reply) → IsOrdered l → IsOrdered (reply l r)
reply-IsOrdered l r h =
    let (m, t, s, _) = reply-Holds l r h in record { mark = m; latest = t; seen = s }

replies-mark :
    (l : Live) (rs : List Reply)
    → IsOrdered l
    → (IsOrdered (replies l rs)) × (l.guard.last_ts ≤ℤ (replies l rs).guard.last_ts)
replies-mark l [] h = (h, ground arith)
replies-mark l (r ∷ rs) h =
    let (later, m) = replies-mark (reply l r) rs (reply-IsOrdered l r h) in
    (later, ground (arith, m, (reply-Holds l r h).3))

-- Over any replies to polls and to commands, errors among them, in any order, whatever the memory: the
-- timestamp on the screen never goes back to an earlier known one, from a state whose snapshot came
-- through the guard.
pub replies-forward :
    (l : Live) (rs : List Reply)
    → IsOrdered l
    → pos 0 <ℤ (replies l rs).snap.ts
    → l.snap.ts ≤ℤ (replies l rs).snap.ts
replies-forward l rs h p =
    let (later, m) = replies-mark l rs h in ground (arith, later.latest, h.latest, h.mark, m, p)

-- Whether a reply makes the watchdog play the next row, resumes playback, or begins what the launch
-- does.
abbrev pub adopts_of : Option Now → Live → (Now → Live → Bool) → Bool
adopts_of none l test = false
adopts_of (some tmp) l test = (accept_ts l.guard tmp.ts).1 && test tmp l

abbrev pub adopts : Live → Reply → (Now → Live → Bool) → Bool
adopts l r test = adopts_of (snapshot r) l test

-- How many of the replies pass a test.
abbrev pub count_replies : (Live → Reply → Bool) → Live → List Reply → ℕ
count_replies test l [] = 0
count_replies test l (r ∷ rs) =
    let later = count_replies test (reply l r) rs in if test l r then suc later else later

abbrev pub fires : Live → Reply → Bool
fires l r = adopts l r track_ended

abbrev pub resumes : Live → Reply → Bool
resumes l r = adopts l r (λ tmp l'. is_playing tmp.state)

abbrev pub begins : Live → Reply → Bool
begins l r = adopts l r (λ tmp l'. l'.auto_start && not l'.auto_woke)

-- A condition as a count.
abbrev pub one : Bool → ℕ
one true = 1
one false = 0

ended_unspent : (tmp : Now) (l : Live) → track_ended tmp l ≡ true → l.auto_nexted ≡ false
unfolding track_ended
ended_unspent tmp l e = third (is_stopped tmp.state) l.auto_nexted _ _ _ e
  where
    third : (a b c d e : Bool) → (a && not b && c && d && e) ≡ true → b ≡ false
    third a true c d e q = absurd (ground (arith, q))
    third a false c d e q = refl

after-nexted :
    (v : Bool) (now : ℕ) (tmp : Now) (l : Live)
    → one (v && track_ended tmp l) + one (not (after v now tmp l).5)
      ≤ one (v && is_playing tmp.state) + one (not l.auto_nexted)
after-nexted false now tmp l = omega arith
after-nexted true now tmp l =
    by_end (track_ended tmp l) (is_playing tmp.state) (ended_unspent tmp l)
  where
    by_end :
        (e p : Bool)
        → (e ≡ true → l.auto_nexted ≡ false)
        → one e + one (not (if e then true else if p then false else l.auto_nexted))
          ≤ one p + one (not l.auto_nexted)
    by_end true p q = ground (arith, q refl)
    by_end false true q = omega arith
    by_end false false q = omega arith

-- What holds of both kinds of reply.
reply-both :
    (P : Core → Option Now → Type 0) (l : Live) (r : Reply)
    → ((b : Backoff) → P (core (record l { backoff = b })) none)
    → ((tmp : Now) → P (after (accept_ts l.guard tmp.ts).1 r.tick tmp l) (some tmp))
    → P (core (reply l r)) (snapshot r)
reply-both P l r refused brought = elim (reply-cases l r) [
  | inl (e, (b, same)) ↦
      subst (λ c. P c (snapshot r)) (sym same)
        (subst (P (core (record l { backoff = b }))) (sym e) (refused b))
  | inr (tmp, e, same) ↦
      subst (λ c. P c (snapshot r)) (sym same)
        (subst (P (after (accept_ts l.guard tmp.ts).1 r.tick tmp l)) (sym e) (brought tmp))
]

pub reply-nexted :
    (l : Live) (r : Reply)
    → one (fires l r) + one (not (reply l r).auto_nexted)
      ≤ one (resumes l r) + one (not l.auto_nexted)
reply-nexted l r =
    reply-both
      (λ c o.
        one (adopts_of o l track_ended) + one (not c.5)
        ≤ one (adopts_of o l (λ tmp l'. is_playing tmp.state)) + one (not l.auto_nexted))
      l r (λ b. omega arith) (λ tmp. after-nexted (accept_ts l.guard tmp.ts).1 r.tick tmp l)

after-woke :
    (v : Bool) (now : ℕ) (tmp : Now) (l : Live)
    → one (v && (l.auto_start && not l.auto_woke)) + one (not (after v now tmp l).7)
      ≤ one (not l.auto_woke)
after-woke false now tmp l = omega arith
after-woke true now tmp l = by_woke l.auto_start l.auto_woke
  where
    by_woke : (a b : Bool) → one (a && not b) + one (not (a || b)) ≤ one (not b)
    by_woke true true = omega arith
    by_woke true false = omega arith
    by_woke false b = omega arith

pub reply-woke :
    (l : Live) (r : Reply)
    → one (begins l r) + one (not (reply l r).auto_woke) ≤ one (not l.auto_woke)
reply-woke l r =
    reply-both
      (λ c o.
        one (adopts_of o l (λ tmp l'. l'.auto_start && not l'.auto_woke)) + one (not c.7)
        ≤ one (not l.auto_woke))
      l r (λ b. omega arith) (λ tmp. after-woke (accept_ts l.guard tmp.ts).1 r.tick tmp l)

pub counted : (b : Bool) (n : ℕ) → (if b then suc n else n) ≡ one b + n
counted true n = omega arith
counted false n = omega arith
