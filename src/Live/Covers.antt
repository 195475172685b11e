-- ===== src/Live/Covers.antt =====
-- A cover that has been tried.
use casquinha.Prelude.{
  List, ◌≤◌, length, arith, not, sym, subst, if◌then◌else◌, ◌&&◌, Option, Bool, ◌≡◌, ◌≢◌, refl, ◌∙◌,
  if-both, none, some, true, false, Bytes, take,
}
use casquinha.Cache.{has, put}
use casquinha.Cache.Refine.{IsValid}
use casquinha.Cache.Residence.{puts, has-puts, has-cut}
use casquinha.Live.Poll.{
  wants_cover, pump_cover, picture, Net, Polled, still, answered, broke, is_some,
}

module _ {V : Type 0} where
  refuses :
      (n : Net V) (album : Option Bytes) → has n.covers album ≡ true → wants_cover n album ≡ false
  unfolding wants_cover
  refuses n album e =
      seven n.qt_ok n.live.have_snap (not (is_some n.cover)) (not n.suspended) _ (is_some album)
        (has n.covers album) e
    where
      seven : (a b c d f g h : Bool) → h ≡ true → (a && b && c && d && f && g && not h) ≡ false
      seven a b c d f g h e = ground (arith, e)

  -- The outcome is in the cache, and stays there.
  recorded :
      (o : Option V) (n : Net V) (id : Bytes) (rest : List (Option Bytes × Option V))
      → IsValid n.covers
      → n.cover_req ≡ take 63 id
      → has n.covers (some id) ≡ false
      → length rest ≤ 7
      → has (puts (put n.covers (some n.cover_req) o).0 rest) (some id) ≡ true
  recorded o n id rest v q new few =
      subst (λ r. has (puts (put n.covers (some r) o).0 rest) (some id) ≡ true) (sym q)
        (sym (has-cut _ id)
          ∙ has-puts n.covers (some (take 63 id)) o rest v (has-cut n.covers id ∙ new) few)

  tried :
      (o : Option V) (n : Net V) (id sel : Bytes) (rest : List (Option Bytes × Option V))
      → IsValid n.covers
      → n.cover ≡ some sel
      → n.cover_req ≡ take 63 id
      → has n.covers (some id) ≡ false
      → length rest ≤ 7
      → let n' =
          if is_some n.cover
          then record n { covers = (put n.covers (some n.cover_req) o).0; cover = none }
          else n in
        has (puts n'.covers rest) (some id) ≡ true
  tried o n id sel rest v c q new few =
      if-both (λ (x : Net V). has (puts x.covers rest) (some id) ≡ true) (is_some n.cover) _ _
        (λ _. recorded o n id rest v q new few) (λ e. absurd (ground (arith, e, c)))

  ended-has :
      (decode : Bytes → Option V) (says : Polled) (n : Net V) (id sel : Bytes)
      (rest : List (Option Bytes × Option V))
      → IsValid n.covers
      → n.cover ≡ some sel
      → n.cover_req ≡ take 63 id
      → has n.covers (some id) ≡ false
      → says ≢ still
      → length rest ≤ 7
      → has (puts (pump_cover decode says n).covers rest) (some id) ≡ true
  unfolding pump_cover
  ended-has decode still n id sel rest v c q new over few = absurd (over refl)
  ended-has decode (answered d) n id sel rest v c q new over few =
      tried (picture decode (answered d)) n id sel rest v c q new few
  ended-has decode (broke d) n id sel rest v c q new over few =
      tried (picture decode (broke d)) n id sel rest v c q new few

  -- The fetch of a cover that was not in the cache ends, with a picture, with bytes that are none, or
  -- with a failure of the transaction: in no later state whose cache has taken at most seven covers more
  -- does the loop want that album's cover again. An eighth may push it out.
  pub cover_once :
      (decode : Bytes → Option V) (says : Polled) (n later : Net V) (id sel : Bytes)
      (rest : List (Option Bytes × Option V))
      → IsValid n.covers
      → n.cover ≡ some sel
      → n.cover_req ≡ take 63 id
      → has n.covers (some id) ≡ false
      → says ≢ still
      → length rest ≤ 7
      → later.covers ≡ puts (pump_cover decode says n).covers rest
      → wants_cover later (some id) ≡ false
  cover_once decode says n later id sel rest v c q new over few at = refuses later (some id) (
      subst (λ k. has k (some id) ≡ true) (sym at)
        (ended-has decode says n id sel rest v c q new over few))
