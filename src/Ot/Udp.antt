-- ===== src/Ot/Udp.antt =====
-- src/cq_transport_ot.c: the datagrams that mirror the log.
use casquinha.Ot.Address.{resolve_host}
use casquinha.Prelude.Int.{ℤ, pos}
use casquinha.Prelude.{
  ◌||◌, length, ◌&&◌, take, List, not, ◌==◌, Bool, if◌then◌else◌, Bytes, Option, ◌∷◌, true, false,
  [], none, some, ℕ, suc,
}

-- `g_udp_state`: 0, 1 and -1.
pub data UdpState : Type 0 where
  untried up dead : UdpState

-- `OTSndUData`: kOTNoError, kOTLookErr, or another error.
pub data UdpResult : Type 0 where
  fine look_error : UdpResult
  other : ℕ → UdpResult

-- The statics of the file; `endpoints` counts the ones that were opened.
pub record Udp : Type 0 where
  pub ep : Bool
  pub state : UdpState
  pub to : ℕ × ℤ
  pub host : Bytes
  pub ok : ℕ
  pub fails : ℕ
  pub last_err : UdpResult
  pub endpoints : ℕ

unfoldable pub udp_start : Udp
udp_start = record {
  ep = false;
  state = untried;
  to = (0, pos 0);
  host = [];
  ok = 0;
  fails = 0;
  last_err = fine;
  endpoints = 0;
}

-- What Open Transport answers to one datagram.
pub record UdpAnswers : Type 0 where
  pub opens : Bool
  pub binds : Bool
  pub services : Option ℕ
  pub first : UdpResult
  pub second : UdpResult

abbrev pub is_up : UdpState → Bool
is_up up = true
is_up _ = false

abbrev pub is_dead : UdpState → Bool
is_dead dead = true
is_dead _ = false

-- `strcmp(a, b) == 0`
abbrev pub same_text : Bytes → Bytes → Bool
same_text [] [] = true
same_text [] (_ ∷ _) = false
same_text (_ ∷ _) [] = false
same_text (a ∷ as') (b ∷ bs) = (a == b) && same_text as' bs

-- The endpoint, opened and bound when there is none.
unfoldable pub udp_endpoint : UdpAnswers → Udp → Udp
udp_endpoint a u =
    if u.ep
    then u
    else if not a.opens
    then record u { state = dead }
    else if not a.binds
    then record u { state = dead; endpoints = suc u.endpoints }
    else record u { ep = true; endpoints = suc u.endpoints }

-- The destination, when the name is known.
unfoldable pub udp_resolve : Option ℕ → Bytes → ℤ → Udp → Udp
udp_resolve none name port u = record u { state = dead }
udp_resolve (some ip) name port u = record u { to = (ip, port); host = take 63 name; state = up }

-- The first half of `cq_tx_udp`: the endpoint and the destination, when they are not those in use.
unfoldable pub udp_ready : UdpAnswers → Bytes → ℤ → Udp → Udp
udp_ready a name port u =
    let u' = udp_endpoint a u in
    if is_up u.state && same_text u.host name
    then u
    else if is_dead u'.state
    then u'
    else udp_resolve (resolve_host a.services name) name port u'

-- The second half: the datagram, once more when an error report stood in the way, and the count.
unfoldable pub udp_count : UdpResult → Udp → Udp
udp_count fine u = record u { ok = suc u.ok }
udp_count r u = record u { fails = suc u.fails; last_err = r }

unfoldable pub udp_send : UdpResult → UdpResult → Bytes → Udp → Udp × List ((ℕ × ℤ) × Bytes)
udp_send fine second data' u = (udp_count fine u, (u.to, data') ∷ [])
udp_send (other e) second data' u = (udp_count (other e) u, (u.to, data') ∷ [])
udp_send look_error second data' u = (udp_count second u, (u.to, data') ∷ (u.to, data') ∷ [])

-- `cq_tx_udp`, with the datagrams that Open Transport was given.
unfoldable pub udp :
    UdpAnswers → Bool → Option Bytes → ℤ → Bytes → Udp → Udp × List ((ℕ × ℤ) × Bytes)
udp a ot_up none port data' u = (u, [])
udp a ot_up (some name) port data' u =
    let u' = udp_ready a name port u in
    if length data' == 0 || is_dead u.state || not ot_up
    then (u, [])
    else if is_dead u'.state
    then (u', [])
    else udp_send a.first a.second data' u'

-- `cq_tx_udp_stats`
unfoldable pub udp_stats : Udp → ℕ × ℕ × UdpResult
udp_stats u = (u.ok, u.fails, u.last_err)
