-- ===== src/Audio/Listen.antt =====
-- os9/casquinha.c: the state of a listen, and the calls of `ServiceAudio` that change it. What the
-- Toolbox answers during a call is an argument.
use Prim.Native.Nat.{zero}
use casquinha.Prelude.{
  ◌∷◌, ℕ, Option, Bytes, Bool, [], take, bytes_eq, length, ◌==◌, min, ◌*◌, false, ◌&&◌, suc, true,
  some, none, drop, not, if◌then◌else◌,
}
use casquinha.Transport.{Transport}
use casquinha.DecTask.{park, Command}
use casquinha.Mp3.{Frame}
use casquinha.App.Scene.{au_idle, au_play, au_http, au_sync, AudioState}
use casquinha.DecRing.{Ring, init, reset, claim, put}
use casquinha.Audio.{Output, double_back}
use casquinha.Prelude.Int.{pos, signed32, ltb_ℤ}

-- `cq_tx_poll` of the stream, and what the Toolbox answers during one call: the buffers of
-- `NewPtr`, which keep what they hold, the decode task, its acknowledgement, and the sound channel.
pub record Answers : Type 0 where
  pub polled : Transport → Transport
  pub comp_ring : Option Bytes
  pub pcm_ring : Option Bytes
  pub makes_task : Bool
  pub acks : Bool
  pub buffers : Bool
  pub channel : Bool
  pub plays : Bool
  pub now : ℕ

-- The globals of a listen: `comp` is `gComp` up to `gCompLen`, `seen_silences` and `seen_rx` are the two
-- statics, the latter -1 at first, and `world` is that of the inline pump.
pub record Listen (W : Type 0) : Type 0 where
  pub state : AudioState
  pub stream : Option Transport
  pub comp : Bytes
  pub out : Output
  pub rx_total : ℕ
  pub fmt : Frame
  pub chan : Bool
  pub playing : Bool
  pub has_task : Bool
  pub mp_decode : Bool
  pub dec_cmd : Command
  pub trims : ℕ
  pub starve_tick : ℕ
  pub rx_tick : ℕ
  pub seen_silences : ℕ
  pub seen_rx : Option ℕ
  pub world : W

-- What a part of `ServiceAudio` does: it goes on, or it returns.
pub data Pass (W : Type 0) : Type 0 where
  goes_on : Listen W → Pass W
  over : Listen W → Pass W

-- `CQ_AUD_COMP_MAX`, `CQ_AUD_RING_TARGET` and `CQ_AUD_TRIM_SLACK`
abbrev pub comp_max : ℕ
comp_max = 64 * 1024

abbrev pub ring_target : ℕ
ring_target = 512 * 1024

abbrev pub trim_slack : ℕ
trim_slack = 256 * 1024

-- The index of the first CR LF CR LF.
unfoldable pub header_end : Bytes → Option ℕ
header_end [] = none
header_end (c ∷ cs) =
    if bytes_eq (take 4 (c ∷ cs)) (13 ∷ 10 ∷ 13 ∷ 10 ∷ [])
    then some 0
    else elim (header_end cs) [ none ↦ none | some i ↦ some (suc i) ]

-- The loop that hands the staged bytes to the decode pipeline, on fuel for its rounds.
unfoldable pub hand_over : ℕ → Ring → Bytes → Option Ring
hand_over zero r bytes = none
hand_over (suc fuel) r bytes =
    let n = min (claim r).1 (length bytes) in
    let on = hand_over fuel (put r (take n bytes)) (drop n bytes) in
    if length bytes == 0 then some r else if (claim r).1 == 0 then some r else on

-- More silence than at the last pass.
abbrev pub starved : ℕ → ℕ → Bool
starved seen silences = ltb_ℤ (signed32 seen) (signed32 silences)

abbrev pub same_rx : ℕ → Option ℕ → Bool
same_rx rx none = false
same_rx rx (some seen) = rx == seen

abbrev pub is_stream : Option Transport → Bool
is_stream none = false
is_stream (some _) = true

abbrev pub is_play : AudioState → Bool
is_play au_play = true
is_play _ = false

abbrev pub is_http : AudioState → Bool
is_http au_http = true
is_http _ = false

abbrev pub is_sync : AudioState → Bool
is_sync au_sync = true
is_sync _ = false

abbrev pub is_off : AudioState → Bool
is_off au_idle = true
is_off _ = false

module _ {W : Type 0} where
  -- `ParkDecTask`, whose wait ends with the acknowledgement or with the timeout.
  unfoldable pub park_task : Bool → Listen W → Listen W
  park_task acks l =
      if l.has_task then record l { dec_cmd = park; mp_decode = l.mp_decode && acks } else l

  -- `StopAudio`
  unfoldable pub stop_audio : Bool → Listen W → Listen W
  stop_audio acks l =
      let l' = park_task acks l in
      record l' {
        chan = false;
        stream = none;
        state = au_idle;
        comp = [];
        out = record l'.out {
          ring = record (reset l'.out.ring) { pcm_wr = 0; pcm_rd = 0 };
          skip = pos 0;
        };
        playing = false;
        starve_tick = 0;
        rx_tick = 0;
      }

  -- `OpenAudioOutput` with both buffers.
  unfoldable pub arm : Bool → Bool → Bytes → Bytes → Listen W → Listen W
  arm makes_task acks comp pcm l =
      let l₁ =
        if not l.has_task && makes_task then record l { has_task = true; dec_cmd = park } else l in
      let l₂ = park_task acks l₁ in
      record l₂ {
        mp_decode = l₂.has_task;
        out = record { ring = init comp pcm 0 0; skip = pos 0; fires = 0; silences = 0 };
        playing = false;
        trims = 0;
      }

  -- `OpenAudioOutput`: none when a buffer is refused.
  unfoldable pub open_output : Answers → Listen W → Option (Listen W)
  open_output a l = elim a.pcm_ring [
    | none ↦ none
    | some pcm ↦ elim a.comp_ring [
      | none ↦ none
      | some comp ↦ some (arm a.makes_task a.acks comp pcm l)
    ]
  ]

  -- `StartDoubleBuffer`: the state, and whether the channel plays.
  unfoldable pub start_output : Answers → Listen W → Listen W × Bool
  start_output a l =
      let stream = is_stream l.stream in
      let filled = (double_back stream (double_back stream l.out).0).0 in
      if not a.buffers
      then (l, false)
      else if not a.channel
      then (record l { chan = false }, false)
      else (record l { chan = true; out = filled; playing = a.plays }, a.plays)
