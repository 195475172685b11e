-- ===== src/View/Word.antt =====
-- The state word and the ack of a pending command.
use casquinha.Prelude.{
  ℕ, ◌+◌, ◌%◌, ◌^◌, ◌≡◌, ◌≤◌, ◌<◌, refl, ◌∙◌, arith, Bool, true, false, not, ◌&&◌, Option, none,
  some, Bytes, [], inl, inr, ◌⊎◌,
}
use casquinha.Prelude.Int.{pos, ltb_ℤ, signed32}
use casquinha.Now.{Now}
use casquinha.View.{
  Input, asks, ticks_since, intent_reflected, is_pending, state_text, state_word_of, render,
}

-- The word for the snapshot's own state.
abbrev pub snapshot_word : Option Now → Bytes
snapshot_word none = []
snapshot_word (some s) = state_text s.state

render-word :
    (i : Input) → ((render i).ack_active ≡ is_pending i) × ((render i).state_word ≡ state_word_of i)
unfolding render
render-word i = go i.snap
  where
    go :
        (o : Option Now)
        → let j : Input = record i { snap = o } in
          ((render j).ack_active ≡ is_pending j) × ((render j).state_word ≡ state_word_of j)
    go none = (refl, refl)
    go (some s) = (refl, refl)

word-settled : (i : Input) → is_pending i ≡ false → state_word_of i ≡ snapshot_word i.snap
unfolding state_word_of
word-settled i h = rw (h, state_word_of) (go i.snap)
  where
    go : (o : Option Now) → (elim o [ none ↦ [] | some s ↦ state_text s.state ]) ≡ snapshot_word o
    go none = refl
    go (some s) = refl

expired :
    (t d : ℕ)
    → 480 ≤ d
    → d < 2 ^ 31
    → ltb_ℤ (signed32 (ticks_since ((t + d) % 2 ^ 32) (t % 2 ^ 32))) (pos 480) ≡ false
expired t d lo hi =
    let e : ticks_since ((t + d) % 2 ^ 32) (t % 2 ^ 32) ≡ d = omega arith in rw e (ground arith)

fresh :
    (t d : ℕ)
    → d < 480
    → ltb_ℤ (signed32 (ticks_since ((t + d) % 2 ^ 32) (t % 2 ^ 32))) (pos 480) ≡ true
fresh t d hi =
    let e : ticks_since ((t + d) % 2 ^ 32) (t % 2 ^ 32) ≡ d = omega arith in rw e (ground arith)

settled :
    (i : Input)
    → is_pending i ≡ false
    → ((render i).ack_active ≡ false) × ((render i).state_word ≡ snapshot_word i.snap)
settled i h = let w = render-word i in (w.0 ∙ h, w.1 ∙ word-settled i h)

pending-false : (a b c : Bool) → (b ≡ false) ⊎ (c ≡ true) → a && b && not c ≡ false
pending-false true true true h = refl
pending-false true true false h = ground arith
pending-false true false c h = refl
pending-false false b c h = refl

-- The ack gives way to the snapshot's own word once the snapshot reflects the command, and at the
-- latest 480 ticks after it, also when the tick counter has wrapped around in between (up to 2 ^ 31
-- ticks, more than a year).
pub render-settles :
    (i : Input) (t d : ℕ)
    → i.intent_ticks ≡ t % 2 ^ 32
    → i.now_ticks ≡ (t + d) % 2 ^ 32
    → d < 2 ^ 31
    → (480 ≤ d) ⊎ (intent_reflected i ≡ true)
    → ((render i).ack_active ≡ false) × ((render i).state_word ≡ snapshot_word i.snap)
unfolding is_pending
render-settles i t d at now hi why = settled i (
    pending-false (asks i.intent) _ (intent_reflected i)
      (elim why [ inl late ↦ inl (rw (at, now) (expired t d late hi)) | inr done ↦ inr done ]))
