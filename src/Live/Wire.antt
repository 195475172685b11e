-- ===== src/Live/Wire.antt =====
-- The selectors that commands send, and the repeats that are swallowed.
use Prim.Native.Nat.{zero}
use casquinha.Track.{TrackItem}
use casquinha.Live.{ltb_ℤ, sub32, pos, tick_diff, Live, action_repeat}
use casquinha.Prelude.{
  length-append, bytes_eq_iff, sym, length-take, ap₂, ◌||◌, leb, bytes_eq, suc, Option-both, ◌++◌,
  ◌&&◌, if◌then◌else◌, ltb, take, arith, codes, ◌%◌, [], length, ◌+◌, ◌∷◌, ◌≤◌, Bytes, List, ℕ,
  Bool, ◌≡◌, refl, ◌∙◌, if-both, some, ap, true, false, ◌↔◌, ◌<◌, ◌^◌,
}
use casquinha.Live.Play.{play_from_selector, more_ids, id_of}

-- The test of `ActionRepeat`.
abbrev is_repeat : ℕ → Bytes → Bytes → ℕ → Bool
is_repeat now sel last tick =
    ltb 0 (length last) && bytes_eq sel last && ltb_ℤ (tick_diff now tick) (pos 40)

verdict :
    (now : ℕ) (sel : Bytes) (l : Live)
    → (action_repeat now sel l).1 ≡ is_repeat now sel l.last_action l.last_action_tick
unfolding action_repeat
verdict now sel l = by_test (is_repeat now sel l.last_action l.last_action_tick)
  where
    by_test :
        (b : Bool)
        → let out : Live × Bool =
            if b
            then (l, true)
            else (record l { last_action = take 239 sel; last_action_tick = now }, false) in
          out.1 ≡ b
    by_test true = refl
    by_test false = refl

noted :
    (now : ℕ) (sel : Bytes) (l : Live)
    → (action_repeat now sel l).1 ≡ false
    → ((action_repeat now sel l).0.last_action ≡ take 239 sel)
      × ((action_repeat now sel l).0.last_action_tick ≡ now)
unfolding action_repeat
noted now sel l =
    if-both
      (λ (o : Live × Bool).
        o.1 ≡ false → (o.0.last_action ≡ take 239 sel) × (o.0.last_action_tick ≡ now))
      (is_repeat now sel l.last_action l.last_action_tick) _ _ (λ _ e. absurd (ground (arith, e)))
      (λ _ e. (refl, refl))

short_take : (n : ℕ) (xs : Bytes) → length xs ≤ n → take n xs ≡ xs
short_take zero [] h = refl
short_take (suc n) [] h = refl
short_take zero (x ∷ xs) h = absurd (omega (arith, h))
short_take (suc n) (x ∷ xs) h = ap (λ r. x ∷ r) (short_take n xs (omega (arith, h)))

later : (now d : ℕ) → now < 2 ^ 32 → d < 2 ^ 31 → tick_diff ((now + d) % 2 ^ 32) now ≡ pos d
later now d h k = ground (arith, wrapped)
  where
    wrapped : sub32 ((now + d) % 2 ^ 32) now ≡ d
    wrapped = omega arith

three_tests :
    (a : ℕ) (b : Bool) (d : ℕ)
    → ((ltb 0 a && b && ltb_ℤ (pos d) (pos 40)) ≡ true) ↔ ((0 < a) × (b ≡ true) × (d < 40))
three_tests a b d = ground arith

cut_same : (sel : Bytes) → (bytes_eq sel (take 239 sel) ≡ true) ↔ (length sel < 240)
cut_same sel = (
  λ e. short ((bytes_eq_iff sel (take 239 sel)).0 e),
  λ h. (bytes_eq_iff sel (take 239 sel)).1 (sym (short_take 239 sel (omega (arith, h)))),
)
  where
    short : sel ≡ take 239 sel → length sel < 240
    short e = omega (arith, ap (λ (x : Bytes). length x) e, length-take 239 sel)

repeat_lem :
    (d : ℕ) (sel : Bytes)
    → ((ltb 0 (length (take 239 sel)) && bytes_eq sel (take 239 sel) && ltb_ℤ (pos d) (pos 40))
        ≡ true)
      ↔ ((d < 40) × (0 < length sel) × (length sel < 240))
repeat_lem d sel =
    let tests = three_tests (length (take 239 sel)) (bytes_eq sel (take 239 sel)) d in
    (
      λ e.
          let (a, b, c) = tests.0 e in
          (c, omega (arith, a, length-take 239 sel), (cut_same sel).0 b),
      λ h. tests.1 (omega (arith, h.1, length-take 239 sel), (cut_same sel).1 h.2, h.0),
    )

-- After an action that was not swallowed, the same one `d` ticks later, with `d` below 2^31, is
-- swallowed just when `d` is below 40 and the action has between 1 and 239 bytes: what the buffer of 240 cannot hold is never
-- taken for a repeat.
pub action_repeat_iff :
    (now d : ℕ) (sel : Bytes) (l : Live)
    → now < 2 ^ 32
    → d < 2 ^ 31
    → (action_repeat now sel l).1 ≡ false
    → ((action_repeat ((now + d) % 2 ^ 32) sel (action_repeat now sel l).0).1 ≡ true)
      ↔ ((d < 40) × (0 < length sel) × (length sel < 240))
action_repeat_iff now d sel l h k fresh =
    let l' = (action_repeat now sel l).0 in
    let (a, t) = noted now sel l fresh in
    let same : (action_repeat ((now + d) % 2 ^ 32) sel l').1
        ≡ (ltb 0 (length (take 239 sel)) && bytes_eq sel (take 239 sel) && ltb_ℤ (pos d) (pos 40)) =
      verdict ((now + d) % 2 ^ 32) sel l'
      ∙ ap (λ (x : Bytes × ℕ). is_repeat ((now + d) % 2 ^ 32) sel x.0 x.1)
          (ap₂ (λ (x : Bytes) (y : ℕ). (x, y)) a t)
      ∙ ap (λ z. ltb 0 (length (take 239 sel)) && bytes_eq sel (take 239 sel) && ltb_ℤ z (pos 40))
          (later now d h k) in
    (λ e. (repeat_lem d sel).0 (sym same ∙ e), λ e. same ∙ (repeat_lem d sel).1 e)

more_ids-fits : (xs : List TrackItem) (o n : ℕ) → o ≤ 884 → o + length (more_ids o n xs) ≤ 884
unfolding more_ids
more_ids-fits [] o n h = omega arith
more_ids-fits (x ∷ xs) o n h =
    Option-both (λ (r : Bytes). o + length r ≤ 884) (id_of x.uri) _ _
      (if-both (λ (r : Bytes). o + length r ≤ 884) (leb 24 n) _ _ (λ _. omega arith)
        (λ _. more_ids-fits xs o n h))
      (λ id.
        if-both (λ (r : Bytes). o + length r ≤ 884) (leb 24 n || leb 900 (o + length id + 16)) _ _
          (λ _. omega arith)
          (λ e.
            longer id (more_ids (o + 1 + length id) (n + 1) xs)
              (more_ids-fits xs (o + 1 + length id) (n + 1) (ground (arith, e)))))
  where
    longer : (id r : Bytes) → o + 1 + length id + length r ≤ 884 → o + length (b',' ∷ id ++ r) ≤ 884
    longer id r h = omega (arith, h, length-append id r)

-- When the id of the row that is clicked has at most 858 bytes, the selector has room in its 900 bytes
-- whatever follows: it is the row's id, then further ids, then the offset, cut nowhere.
pub play_from_selector-fits :
    (id : Bytes) (rest : List TrackItem)
    → length id ≤ 858
    → (play_from_selector id rest
        ≡ some (
            codes "/spot/api/1/play/from?ids="
            ++ id
            ++ more_ids (26 + length id) 1 rest
            ++ codes "&offset=0"))
unfolding play_from_selector
play_from_selector-fits id rest h =
    let more = more_ids (26 + length id) 1 rest in
    let room : ltb 900 (26 + length id) ≡ false = ground arith in
    rw (room, play_from_selector)
      (ap (λ (x : Bytes). some x)
        (short_take 899 _ (whole more (more_ids-fits rest (26 + length id) 1 (omega arith)))))
  where
    whole :
        (more : Bytes)
        → 26 + length id + length more ≤ 884
        → length (codes "/spot/api/1/play/from?ids=" ++ id ++ more ++ codes "&offset=0") ≤ 899
    whole more h =
        omega (arith, h, length-append id more, length-append (id ++ more) (codes "&offset=0"))
