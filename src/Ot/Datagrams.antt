-- ===== src/Ot/Datagrams.antt =====
-- What holds of the log mirror over any calls.
use casquinha.Prelude.Int.{ℤ}
use casquinha.Prelude.{
  ◌==◌, ◌||◌, Bool, sym, min, ◌&&◌, not, arith, length, Option, List, ◌≢◌, Bytes, ◌+◌, ◌≡◌, ◌≤◌,
  ◌∷◌, refl, true, false, [], none, some, ℕ, suc, if-both,
}
use casquinha.Ot.Udp.{
  udp, udp_start, same_text, is_up, UdpResult, is_dead, UdpAnswers, udp_send, udp_endpoint,
  UdpState, udp_ready, udp_resolve, udp_count, Udp, untried, up, dead, fine, look_error, other,
}

-- One endpoint at most is ever opened; none before the first datagram; and what is up has it.
pub record IsUdp (u : Udp) : Type 0 where
  pub once : u.endpoints ≤ 1
  pub holds : u.state ≡ up → u.ep ≡ true
  pub new_ : u.state ≡ untried → (u.ep ≡ false) × (u.endpoints ≡ 0)

-- Between the endpoint and the destination.
record IsOpen (u u' : Udp) : Type 0 where
  few : u'.endpoints ≤ 1
  has : u'.state ≢ dead → u'.ep ≡ true
  counts : (u'.ok ≡ u.ok) × (u'.fails ≡ u.fails)

endpoint-IsOpen :
    (a : UdpAnswers) (u : Udp) → IsUdp u → u.state ≢ dead → IsOpen u (udp_endpoint a u)
unfolding udp_endpoint
endpoint-IsOpen a u h live =
    if-both (IsOpen u) u.ep _ _ (λ e. record { few = h.once; has = λ _. e; counts = (refl, refl) })
      (λ e.
        if-both (IsOpen u) (not a.opens) _ _
          (λ _. record { few = h.once; has = λ n. absurd (n refl); counts = (refl, refl) })
          (λ _.
            if-both (IsOpen u) (not a.binds) _ _
              (λ _. record { few = first e; has = λ n. absurd (n refl); counts = (refl, refl) })
              (λ _. record { few = first e; has = λ _. refl; counts = (refl, refl) })))
  where
    closed_state : (s : UdpState) → u.state ≡ s → u.ep ≡ false → u.endpoints ≡ 0
    closed_state untried e q = (h.new_ e).1
    closed_state up e q = ground (arith, h.holds e, q)
    closed_state dead e q = absurd (live e)

    first : u.ep ≡ false → suc u.endpoints ≤ 1
    first e = omega (arith, closed_state u.state refl e)

-- The counters are kept, and one endpoint at most is open.
record IsWired (u u' : Udp) : Type 0 where
  sound : IsUdp u'
  kept : (u'.ok ≡ u.ok) × (u'.fails ≡ u.fails)

dead_lem : (s : UdpState) → is_dead s ≡ true → s ≡ dead
dead_lem dead e = refl
dead_lem up e = absurd (ground arith)
dead_lem untried e = absurd (ground arith)

resolve-IsWired :
    (ip : Option ℕ) (name : Bytes) (port : ℤ) (u u' : Udp)
    → IsOpen u u'
    → u'.state ≢ dead
    → IsWired u (udp_resolve ip name port u')
unfolding udp_resolve
resolve-IsWired none name port u u' h live = record {
  sound = record {
    once = h.few;
    holds = λ e. absurd (ground arith);
    new_ = λ e. absurd (ground arith);
  };
  kept = h.counts;
}
resolve-IsWired (some ip) name port u u' h live = record {
  sound = record { once = h.few; holds = λ _. h.has live; new_ = λ e. absurd (ground arith) };
  kept = h.counts;
}

ready-IsWired :
    (a : UdpAnswers) (name : Bytes) (port : ℤ) (u : Udp)
    → IsUdp u
    → u.state ≢ dead
    → IsWired u (udp_ready a name port u)
unfolding udp_ready
ready-IsWired a name port u h live =
    let o = endpoint-IsOpen a u h live in
    if-both (IsWired u) (is_up u.state && same_text u.host name) _ _
      (λ _. record { sound = h; kept = (refl, refl) })
      (λ _.
        if-both (IsWired u) (is_dead (udp_endpoint a u).state) _ _
          (λ d. record {
            sound = record {
              once = o.few;
              holds = λ e. absurd (ground (arith, dead_lem (udp_endpoint a u).state d, e));
              new_ = λ e. absurd (ground (arith, dead_lem (udp_endpoint a u).state d, e));
            };
            kept = o.counts;
          })
          (λ d. resolve-IsWired _ name port u _ o (λ e. ground (arith, d, e))))

-- Every datagram goes to one place with one text.
abbrev pub AllTo : ℕ × ℤ → Bytes → List ((ℕ × ℤ) × Bytes) → Type 0
AllTo to data' [] = Unit
AllTo to data' ((to', text) ∷ ds) = (to' ≡ to) × (text ≡ data') × AllTo to data' ds

-- A call gives Open Transport at most two datagrams, all with the text and for the destination in
-- use, and counts them once, as sent or as failed; it counts nothing when it gives none.
pub record IsCounted (u : Udp) (data' : Bytes) (u' : Udp) (sent : List ((ℕ × ℤ) × Bytes))
    : Type 0 where
  pub sound : IsUdp u'
  pub addressed : AllTo u'.to data' sent
  pub few : length sent ≤ 2
  pub counted : u'.ok + u'.fails ≡ u.ok + u.fails + min 1 (length sent)

count_lem :
    (r : UdpResult) (u : Udp)
    → IsUdp u
    → (IsUdp (udp_count r u))
      × ((udp_count r u).to ≡ u.to)
      × ((udp_count r u).ok + (udp_count r u).fails ≡ u.ok + u.fails + 1)
unfolding udp_count
count_lem fine u h = (record { once = h.once; holds = h.holds; new_ = h.new_ }, refl, omega arith)
count_lem look_error u h =
    (record { once = h.once; holds = h.holds; new_ = h.new_ }, refl, omega arith)
count_lem (other e) u h =
    (record { once = h.once; holds = h.holds; new_ = h.new_ }, refl, omega arith)

send-IsCounted :
    (r₁ r₂ : UdpResult) (data' : Bytes) (u : Udp)
    → IsUdp u
    → IsCounted u data' (udp_send r₁ r₂ data' u).0 (udp_send r₁ r₂ data' u).1
unfolding udp_send
send-IsCounted fine r₂ data' u h =
    let (s, d, n) = count_lem fine u h in
    record {
      sound = s;
      addressed = (sym d, refl, tt);
      few = omega arith;
      counted = omega (arith, n);
    }
send-IsCounted (other e) r₂ data' u h =
    let (s, d, n) = count_lem (other e) u h in
    record {
      sound = s;
      addressed = (sym d, refl, tt);
      few = omega arith;
      counted = omega (arith, n);
    }
send-IsCounted look_error r₂ data' u h =
    let (s, d, n) = count_lem r₂ u h in
    record {
      sound = s;
      addressed = (sym d, refl, (sym d, refl, tt));
      few = omega arith;
      counted = omega (arith, n);
    }

none-IsCounted : (data' : Bytes) (u u' : Udp) → IsWired u u' → IsCounted u data' u' []
none-IsCounted data' u u' h = record {
  sound = h.sound;
  addressed = tt;
  few = omega arith;
  counted = omega (arith, h.kept.0, h.kept.1);
}

from_set :
    (data' : Bytes) (u u' v : Udp) (sent : List ((ℕ × ℤ) × Bytes))
    → IsWired u u'
    → IsCounted u' data' v sent
    → IsCounted u data' v sent
from_set data' u u' v sent h k = record {
  sound = k.sound;
  addressed = k.addressed;
  few = k.few;
  counted = omega (arith, k.counted, h.kept.0, h.kept.1);
}

guard_live : (a b : Bool) (s : UdpState) → (a || is_dead s || b) ≡ false → s ≢ dead
guard_live a b s e q = ground (arith, e, q)

-- However Open Transport answers, a call that mirrors a line of the log gives it at most two
-- datagrams, all with that line and for the destination in use, and counts them once, as sent or as
-- failed; it counts nothing when it gives none; and of all the calls there ever are, one at most opens
-- an endpoint.
pub udp-IsCounted :
    (a : UdpAnswers) (ot_up : Bool) (host : Option Bytes) (port : ℤ) (data' : Bytes) (u : Udp)
    → IsUdp u
    → IsCounted u data' (udp a ot_up host port data' u).0 (udp a ot_up host port data' u).1
unfolding udp
udp-IsCounted a ot_up none port data' u h =
    none-IsCounted data' u u (record { sound = h; kept = (refl, refl) })
udp-IsCounted a ot_up (some name) port data' u h =
    let P = λ (o : Udp × List ((ℕ × ℤ) × Bytes)). IsCounted u data' o.0 o.1 in
    if-both P (length data' == 0 || is_dead u.state || not ot_up) _ _
      (λ _. none-IsCounted data' u u (record { sound = h; kept = (refl, refl) }))
      (λ e.
        let set = ready-IsWired a name port u h (guard_live _ _ u.state e) in
        if-both P (is_dead (udp_ready a name port u).state) _ _ (λ _. none-IsCounted data' u _ set)
          (λ _.
            from_set data' u (udp_ready a name port u) _ _ set
              (send-IsCounted a.first a.second data' _ set.sound)))

pub udp_start-IsUdp : IsUdp udp_start
unfolding udp_start
udp_start-IsUdp = record {
  once = omega arith;
  holds = λ e. absurd (ground arith);
  new_ = λ _. (refl, refl);
}
