-- ===== src/Pls/Choice.antt =====
-- Which URL a playlist gives.
use casquinha.Prelude.{
  ℕ, ◌≡◌, ◌≤◌, ◌<◌, refl, ap, ap₂, ◌∙◌, arith, Option, none, some, List, [], ◌∷◌, ◌++◌, Bytes,
  if◌then◌else◌, ltb, inl, inr, ◌⊎◌, Bool-cases,
}
use casquinha.Alloc.{Memory}
use casquinha.Pls.{
  lines, trim, file_entry, is_bare, Found, beats, offer, offer_bare, step, scan, url_of, first_url,
}

abbrev pub Entry : Type 0
Entry = ℕ × Bytes

abbrev pub entry_front : Option Entry → List Entry → List Entry
entry_front none es = es
entry_front (some (i, [])) es = es
entry_front (some (i, c ∷ cs)) es = (i, c ∷ cs) ∷ es

-- The entries of the lines that have a value, in order.
abbrev pub entries : List Bytes → List Entry
entries [] = []
entries (l ∷ ls) = entry_front (file_entry (trim l)) (entries ls)

abbrev pub first_of : Option Bytes → Option Bytes → Option Bytes
first_of (some a) b = some a
first_of none b = b

abbrev pub bare_line : Option Entry → Bytes → Option Bytes
bare_line (some e) l = none
bare_line none l = if is_bare l then some l else none

-- The first bare URL of the lines.
abbrev pub first_bare : List Bytes → Option Bytes
first_bare [] = none
first_bare (l ∷ ls) = first_of (bare_line (file_entry (trim l)) (trim l)) (first_bare ls)

abbrev pub AllAbove : ℕ → List Entry → Type 0
AllAbove i [] = Unit
AllAbove i (e ∷ es) = (i < e.0) × AllAbove i es

abbrev pub AllFrom : ℕ → List Entry → Type 0
AllFrom i [] = Unit
AllFrom i (e ∷ es) = (i ≤ e.0) × AllFrom i es

-- The entry is the first of those with the least index.
pub record IsFirstLeast (es : List Entry) (e : Entry) : Type 0 where
  pub before : List Entry
  pub after : List Entry
  pub place : es ≡ before ++ e ∷ after
  pub above : AllAbove e.0 before
  pub least : AllFrom e.0 after

pick : Option Entry → List Entry → Option Entry
pick best [] = best
pick best (e ∷ es) = pick (if beats e.0 best then some e else best) es

pick-some :
    (e : Entry) (es : List Entry)
    → ((pick (some e) es ≡ some e) × AllFrom e.0 es)
      ⊎ ((d : Entry) × (pick (some e) es ≡ some d) × (d.0 < e.0) × IsFirstLeast es d)
unfolding pick
pick-some e [] = inl (refl, tt)
pick-some e (d ∷ es) = elim (Bool-cases (ltb d.0 e.0)) [
  | inl less ↦ rw less (elim (pick-some d es) [
    | inl (p, all) ↦ inr (
      d,
      p,
      ground arith,
      record { before = []; after = es; place = refl; above = tt; least = all },
    )
    | inr (c, p, lt, first) ↦ inr (
      c,
      p,
      ground arith,
      record {
        before = d ∷ first.before;
        after = first.after;
        place = ap (◌∷◌ d) first.place;
        above = (lt, first.above);
        least = first.least;
      },
    )
  ])
  | inr more ↦ rw more (elim (pick-some e es) [
    | inl (p, all) ↦ inl (p, (ground arith, all))
    | inr (c, p, lt, first) ↦ inr (
      c,
      p,
      lt,
      record {
        before = d ∷ first.before;
        after = first.after;
        place = ap (◌∷◌ d) first.place;
        above = (ground arith, first.above);
        least = first.least;
      },
    )
  ])
]

pick-none :
    (es : List Entry)
    → ((pick none es ≡ none) × (es ≡ []))
      ⊎ ((d : Entry) × (pick none es ≡ some d) × IsFirstLeast es d)
unfolding pick
pick-none [] = inl (refl, refl)
pick-none (e ∷ es) = elim (pick-some e es) [
  | inl (p, all) ↦
      inr (e, p, record { before = []; after = es; place = refl; above = tt; least = all })
  | inr (d, p, lt, first) ↦ inr (
    d,
    p,
    record {
      before = e ∷ first.before;
      after = first.after;
      place = ap (◌∷◌ e) first.place;
      above = (lt, first.above);
      least = first.least;
    },
  )
]

found : Option Entry → Option Bytes → Found × Memory
found best bare = (record { best = best; bare = bare }, [])

first_of-none : (a : Option Bytes) → first_of a none ≡ a
first_of-none none = refl
first_of-none (some a) = refl

first_of_assoc : (a b c : Option Bytes) → first_of (first_of a b) c ≡ first_of a (first_of b c)
first_of_assoc none b c = refl
first_of_assoc (some a) b c = refl

offer_bare-lem :
    (best : Option Entry) (bare : Option Bytes) (line : Bytes)
    → offer_bare [] (record { best = best; bare = bare }) line
      ≡ found best (first_of bare (some line))
unfolding offer_bare found
offer_bare-lem best none line = refl
offer_bare-lem best (some url) line = refl

-- One line with enough memory.
step-lem :
    (best : Option Entry) (bare : Option Bytes) (line : Bytes) (o : Option Entry)
    → file_entry line ≡ o
    → step [] (record { best = best; bare = bare }) line
      ≡ found (pick best (entry_front o [])) (first_of bare (bare_line o line))
unfolding step pick offer found
step-lem best bare line none e =
    rw (e, step)
      (elim (Bool-cases (is_bare line)) [
        | inl url ↦ rw url (offer_bare-lem best bare line)
        | inr other ↦ rw other (rw (first_of-none bare) refl)
      ])
step-lem best bare line (some (i, [])) e = rw (e, step) (rw (first_of-none bare) refl)
step-lem best bare line (some (i, c ∷ cs)) e =
    rw (e, step)
      (rw (first_of-none bare)
        (elim (Bool-cases (beats i best)) [ inl less ↦ rw less refl | inr more ↦ rw more refl ]))

pick-front :
    (best : Option Entry) (o : Option Entry) (es : List Entry)
    → pick (pick best (entry_front o [])) es ≡ pick best (entry_front o es)
unfolding pick
pick-front best none es = refl
pick-front best (some (i, [])) es = refl
pick-front best (some (i, c ∷ cs)) es = refl

scan-lem :
    (best : Option Entry) (bare : Option Bytes) (ls : List Bytes)
    → scan [] (record { best = best; bare = bare }) ls
      ≡ found (pick best (entries ls)) (first_of bare (first_bare ls))
unfolding scan pick found
scan-lem best bare [] = rw (first_of-none bare) refl
scan-lem best bare (l ∷ ls) =
    let o = file_entry (trim l) in
    ap (λ r. scan r.1 r.0 ls) (step-lem best bare (trim l) o refl)
    ∙ scan-lem (pick best (entry_front o [])) (first_of bare (bare_line o (trim l))) ls
    ∙ ap₂ found (pick-front best o (entries ls))
        (first_of_assoc bare (bare_line o (trim l)) (first_bare ls))

-- With enough memory the playlist's URL is the value of the first of the `File<n>=` lines with the
-- least index, or, when no such line has a value, the first bare http or https line, if any.
pub first_url-choice :
    (text : Bytes)
    → ((entries (lines text) ≡ []) × ((first_url [] text).0 ≡ first_bare (lines text)))
      ⊎ ((e : Entry) × IsFirstLeast (entries (lines text)) e × ((first_url [] text).0 ≡ some e.1))
unfolding first_url found
first_url-choice text =
    let result = ap (λ r. url_of r.0) (scan-lem none none (lines text)) in
    elim (pick-none (entries (lines text))) [
      | inl (p, nothing) ↦
          inl (nothing, result ∙ ap (λ b. url_of (found b (first_bare (lines text))).0) p)
      | inr (e, p, first) ↦
          inr (e, first, result ∙ ap (λ b. url_of (found b (first_bare (lines text))).0) p)
    ]
