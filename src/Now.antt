-- ===== src/Now.antt =====
-- src/cq_now.c: the snapshot of what plays. A `long long` is an integer, wrapped where a sum could
-- leave 64 bits, and `(int)` keeps the low 32.
pub mod Position
pub mod Response
mod Tests
use casquinha.Prelude.{
  ℕ, Bool, true, false, not, ◌&&◌, ◌||◌, Option, none, some, List, [], ◌∷◌, if◌then◌else◌, Bytes,
  bytes_eq, codes, length,
}
use casquinha.Prelude.Int.{ℤ, pos, negsuc, ltb_ℤ, ◌+ℤ◌, ◌-ℤ◌, wrap64, wrap32}
use casquinha.Alloc.{Memory, dup_or_null}
use casquinha.Codec
use casquinha.Codec.{Fields}

-- `cq_play_state` and `cq_dev_state`
pub data PlayState : Type 0 where
  stopped playing paused : PlayState

pub data DevState : Type 0 where
  unknown active idle : DevState

-- `cq_now`
pub record Now : Type 0 where
  pub state : PlayState
  pub track : Option Bytes
  pub artist : Option Bytes
  pub album : Option Bytes
  pub album_id : Option Bytes
  pub track_id : Option Bytes
  pub position_ms : ℤ
  pub duration_ms : ℤ
  pub ts : ℤ
  pub volume : ℤ
  pub queue_len : ℤ
  pub api_version : ℤ
  pub device : DevState

-- `s && strcmp(s, word) == 0`
abbrev pub is_word : Option Bytes → Bytes → Bool
is_word none word = false
is_word (some s) word = bytes_eq s word

-- `state_from`
unfoldable pub state_from : Option Bytes → PlayState
state_from s =
    if is_word s (codes "playing")
    then playing
    else if is_word s (codes "paused")
    then paused
    else stopped

-- `device_from`
unfoldable pub device_from : Option Bytes → DevState
device_from s =
    if is_word s (codes "active")
    then active
    else if is_word s (codes "idle")
    then idle
    else unknown

-- `n->volume = vol ? (int)parse_ll(vol) : -1`
unfoldable pub volume_from : Option Bytes → ℤ
volume_from none = negsuc 0
volume_from (some vol) = wrap32 (Codec.parse_ll (some vol))

-- `cq_now_from_fields`: five copies are asked for, in this order.
unfoldable pub from_fields : Memory → Fields → Now × Memory
from_fields m f =
    let (track, m₁) = dup_or_null m (Codec.get f (codes "track")) in
    let (artist, m₂) = dup_or_null m₁ (Codec.get f (codes "artist")) in
    let (album, m₃) = dup_or_null m₂ (Codec.get f (codes "album")) in
    let (album_id, m₄) = dup_or_null m₃ (Codec.get f (codes "album_id")) in
    let (track_id, m₅) = dup_or_null m₄ (Codec.get f (codes "track_id")) in
    (
      record {
        state = state_from (Codec.get f (codes "state"));
        track = track;
        artist = artist;
        album = album;
        album_id = album_id;
        track_id = track_id;
        position_ms = Codec.parse_ll (Codec.get f (codes "position_ms"));
        duration_ms = Codec.parse_ll (Codec.get f (codes "duration_ms"));
        ts = Codec.parse_ll (Codec.get f (codes "ts"));
        volume = volume_from (Codec.get f (codes "volume"));
        queue_len = wrap32 (Codec.parse_ll (Codec.get f (codes "queue_len")));
        api_version = wrap32 (Codec.parse_ll (Codec.get f (codes "api")));
        device = device_from (Codec.get f (codes "device"));
      },
      m₅,
    )

-- `cq_now_from_response`
pub from_response : Memory → Bytes → Now × Memory
from_response m bytes = let (f, m') = Codec.parse m Codec.init bytes in from_fields m' f

-- `cq_now_free`
pub free : Now → Now
free n = record n { track = none; artist = none; album = none; album_id = none; track_id = none }

-- `cq_now_has_track`
pub has_track : Now → Bool
has_track n = elim n.track [ none ↦ false | some t ↦ elim t [ [] ↦ false | c ∷ cs ↦ true ] ]

-- `cq_now_has_volume`
pub has_volume : Now → Bool
has_volume n = not (ltb_ℤ n.volume (pos 0))

abbrev pub is_playing : PlayState → Bool
is_playing playing = true
is_playing _ = false

-- `cq_now_device_is_idle`
pub device_is_idle : Now → Bool
device_is_idle n = elim n.device [ idle ↦ true | _ ↦ false ]

-- `cq_now_interpolated_position_ms`
pub interpolated_position_ms : Now → ℤ → ℤ
interpolated_position_ms n now_epoch_ms =
    if not (is_playing n.state) || ltb_ℤ n.ts (pos 1)
    then n.position_ms
    else (let est = wrap64 (n.position_ms +ℤ wrap64 (now_epoch_ms -ℤ n.ts)) in
        let low = if ltb_ℤ est (pos 0) then pos 0 else est in
        if ltb_ℤ (pos 0) n.duration_ms && ltb_ℤ n.duration_ms low then n.duration_ms else low)
