-- ===== src/Live/Cases.antt =====
-- A reply either reports an error or brings a snapshot, which the guard accepts or not.
use casquinha.Live.Keeps.{start_fire-shown, Shown}
use casquinha.Backoff.{Backoff}
use casquinha.Live.Replies.{adopt-core, nexted_after, shown_snap, core, Core}
use casquinha.Live.{supported, Memory, Live}
use casquinha.Now.{from_fields, Now}
use casquinha.Live.Adopt.{
  judge, track_ended, adopt_reply, error_reply, settle, same_ts, adopt, note_native, healthy_reply,
}
use casquinha.Prelude.{
  inl, inr, ◌⊎◌, bytes_eq, codes, Bytes, Option, length, ltb, ◌&&◌, if◌then◌else◌, ℕ, Bool, ◌≡◌,
  refl, ◌∙◌, if-both, none, some, ap, true, false, ◌||◌, [],
}
use casquinha.Backoff
use casquinha.Codec
use casquinha.Codec.{Fields}
use casquinha.Guard.{accept_ts}

-- `l` after a healthy reply whose snapshot the guard has accepted, or refused.
abbrev pub after : Bool → ℕ → Now → Live → Core
after true now tmp l = (
  (accept_ts l.guard tmp.ts).0,
  Backoff.ok l.backoff,
  shown_snap now tmp l,
  true,
  (if same_ts tmp l.have_snap l.snap then l.snap_tick else now),
  nexted_after tmp l,
  l.auto_start,
  l.auto_start || l.auto_woke,
)
after false now tmp l = (
  (accept_ts l.guard tmp.ts).0,
  Backoff.ok l.backoff,
  l.snap,
  l.have_snap,
  l.snap_tick,
  l.auto_nexted,
  l.auto_start,
  l.auto_woke,
)

settle-core :
    (m : Memory) (now : ℕ) (tmp : Now) (l : Live)
    → core (settle m now tmp l).0 ≡ after (accept_ts l.guard tmp.ts).1 now tmp l
unfolding settle track_ended
settle-core m now tmp l = by_verdict (accept_ts l.guard tmp.ts).1
  where
    judged : Live
    judged = record l { backoff = Backoff.ok l.backoff; guard = (accept_ts l.guard tmp.ts).0 }

    by_verdict :
        (v : Bool) → core (if v then adopt m now tmp judged else (judged, m)).0 ≡ after v now tmp l
    by_verdict true = adopt-core m now tmp judged
    by_verdict false = refl

pub healthy-core :
    (m : Memory) (now : ℕ) (tmp : Now) (is_cmd : Bool) (l : Live)
    → core (healthy_reply m now tmp is_cmd l).0 ≡ after (accept_ts l.guard tmp.ts).1 now tmp l
unfolding healthy_reply note_native track_ended
healthy-core m now tmp is_cmd l =
    let known : Live = record l { native_play = supported; fallback_uri = [] } in
    if-both
      (λ (x : Live). core (settle m now tmp x).0 ≡ after (accept_ts l.guard tmp.ts).1 now tmp l)
      (is_cmd && ltb 0 (length l.fallback_uri)) known l
      (λ _. settle-core m now tmp known ∙ same (accept_ts l.guard tmp.ts).1)
      (λ _. settle-core m now tmp l)
  where
    same :
        (v : Bool)
        → after v now tmp (record l { native_play = supported; fallback_uri = [] })
          ≡ after v now tmp l
    same true = refl
    same false = refl

-- A reply with the memory and the clock at its arrival.
pub record Reply : Type 0 where
  pub memory : Memory
  pub tick : ℕ
  pub document : Bytes
  pub is_cmd : Bool

abbrev pub fields_of : Reply → Fields × Memory
fields_of r = Codec.parse r.memory Codec.init r.document

-- The snapshot of a reply that reports no error.
abbrev pub unless_error : Option Bytes → Now → Option Now
unless_error (some err) tmp = none
unless_error none tmp = some tmp

abbrev pub snapshot : Reply → Option Now
snapshot r =
    let (f, m) = fields_of r in unless_error (Codec.get f (codes "error")) (from_fields m f).0

abbrev pub reply : Live → Reply → Live
reply l r = (adopt_reply r.memory r.tick r.document r.is_cmd l).0

error-core :
    (m : Memory) (now : ℕ) (err : Bytes) (is_cmd : Bool) (l : Live)
    → (b : Backoff) × (core (error_reply m now err is_cmd l).0 ≡ core (record l { backoff = b }))
unfolding error_reply
error-core m now err is_cmd l =
    let P = λ (o : Live × Memory). (b : Backoff) × (core o.0 ≡ core (record l { backoff = b })) in
    if-both P (bytes_eq err (codes "rate_limited")) _ _ (λ _. (l.backoff, refl))
      (λ _.
        if-both P (is_cmd && bytes_eq err (codes "not_found") && ltb 0 (length l.fallback_uri)) _ _
          (λ _. (
            l.backoff,
            ap (λ (x : Shown). (x.0, x.1, x.2, x.3, x.4, x.5, x.6, x.7))
                (start_fire-shown m now _ _),
          ))
          (λ _. (Backoff.fail l.backoff, refl)))

-- A reply reports an error, or brings a snapshot.
pub reply-cases :
    (l : Live) (r : Reply)
    → ((snapshot r ≡ none) × ((b : Backoff) × (core (reply l r) ≡ core (record l { backoff = b }))))
      ⊎ ((tmp : Now) × (snapshot r ≡ some tmp)
          × (core (reply l r) ≡ after (accept_ts l.guard tmp.ts).1 r.tick tmp l))
unfolding adopt_reply judge track_ended
reply-cases l r =
    let (f, m) = fields_of r in
    by_error m (from_fields m f).1 (from_fields m f).0 (Codec.get f (codes "error"))
  where
    online :
        (v : Bool) (tmp : Now)
        → after v r.tick tmp (record l { online = true }) ≡ after v r.tick tmp l
    online true tmp = refl
    online false tmp = refl

    by_error :
        (m m' : Memory) (tmp : Now) (o : Option Bytes)
        → let l' = (judge m m' r.tick o tmp r.is_cmd (record l { online = true })).0 in
          ((unless_error o tmp ≡ none)
            × ((b : Backoff) × (core l' ≡ core (record l { backoff = b }))))
          ⊎ ((now : Now) × (unless_error o tmp ≡ some now)
              × (core l' ≡ after (accept_ts l.guard now.ts).1 r.tick now l))
    by_error m m' tmp (some err) = inl (refl, error-core m r.tick err r.is_cmd _)
    by_error m m' tmp none = inr (
      tmp,
      refl,
      healthy-core m' r.tick tmp r.is_cmd (record l { online = true })
          ∙ online (accept_ts l.guard tmp.ts).1 tmp,
    )
