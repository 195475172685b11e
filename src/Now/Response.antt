-- ===== src/Now/Response.antt =====
-- A document that tells a snapshot is read back as that snapshot.
use casquinha.Codec.Number.{parse_ll-decimal}
use casquinha.Codec.Parse.{parse-memory}
use casquinha.Prelude.Int.{wrap32-eq}
use casquinha.Alloc.{dup_or_null-plenty}
use casquinha.Prelude.Decimal.{decimal}
use casquinha.Codec.{Fields}
use casquinha.Codec.Document.{get-parse-render, render, lookup_last, AllPairs, Ending}
use casquinha.Now.{
  paused, idle, playing, wrap32, active, negsuc, stopped, unknown, some, ℤ, pos, Now, from_fields,
  device_from, DevState, state_from, from_response, volume_from, PlayState,
}
use casquinha.Codec
use casquinha.Prelude.{
  append-nil, sym, arith, ap, ◌∙◌, ◌^◌, [], none, List, some, ◌≡◌, codes, ◌<◌, Bytes, ℕ, Option,
  refl,
}

-- What the server tells: five texts, two words, and numbers, the volume only when there is one.
pub record Values : Type 0 where
  pub track : Option Bytes
  pub artist : Option Bytes
  pub album : Option Bytes
  pub album_id : Option Bytes
  pub track_id : Option Bytes
  pub state : PlayState
  pub device : DevState
  pub position_ms : ℕ
  pub duration_ms : ℕ
  pub ts : ℕ
  pub queue_len : ℕ
  pub api : ℕ
  pub volume : Option ℕ

abbrev pub state_text : PlayState → Bytes
state_text stopped = codes "stopped"
state_text playing = codes "playing"
state_text paused = codes "paused"

abbrev pub device_text : DevState → Bytes
device_text unknown = codes "unknown"
device_text active = codes "active"
device_text idle = codes "idle"

abbrev pub volume_text : Option ℕ → Option Bytes
volume_text none = none
volume_text (some n) = some (decimal n)

abbrev pub told_volume : Option ℕ → ℤ
told_volume none = negsuc 0
told_volume (some n) = pos n

abbrev pub SmallVolume : Option ℕ → Type 0
SmallVolume none = Unit
SmallVolume (some n) = n < 2 ^ 31

-- The snapshot that they are.
abbrev pub told : Values → Now
told v = record {
  state = v.state;
  track = v.track;
  artist = v.artist;
  album = v.album;
  album_id = v.album_id;
  track_id = v.track_id;
  position_ms = pos v.position_ms;
  duration_ms = pos v.duration_ms;
  ts = pos v.ts;
  volume = told_volume v.volume;
  queue_len = pos v.queue_len;
  api_version = pos v.api;
  device = v.device;
}

-- A lookup that finds them under their thirteen keys, in numbers that fit.
pub record Tells (look : Bytes → Option Bytes) (v : Values) : Type 0 where
  pub track : look (codes "track") ≡ v.track
  pub artist : look (codes "artist") ≡ v.artist
  pub album : look (codes "album") ≡ v.album
  pub album_id : look (codes "album_id") ≡ v.album_id
  pub track_id : look (codes "track_id") ≡ v.track_id
  pub state : look (codes "state") ≡ some (state_text v.state)
  pub device : look (codes "device") ≡ some (device_text v.device)
  pub position : look (codes "position_ms") ≡ some (decimal v.position_ms)
  pub duration : look (codes "duration_ms") ≡ some (decimal v.duration_ms)
  pub ts : look (codes "ts") ≡ some (decimal v.ts)
  pub queue : look (codes "queue_len") ≡ some (decimal v.queue_len)
  pub api : look (codes "api") ≡ some (decimal v.api)
  pub volume : look (codes "volume") ≡ volume_text v.volume
  pub position_fits : v.position_ms < 2 ^ 63
  pub duration_fits : v.duration_ms < 2 ^ 63
  pub ts_fits : v.ts < 2 ^ 63
  pub queue_fits : v.queue_len < 2 ^ 31
  pub api_fits : v.api < 2 ^ 31
  pub volume_fits : SmallVolume v.volume

number : (n : ℕ) → n < 2 ^ 63 → Codec.parse_ll (some (decimal n)) ≡ pos n
number n fits =
    ap (λ b. Codec.parse_ll (some b)) (sym (append-nil (decimal n)))
    ∙ (parse_ll-decimal [] [] n tt tt fits).0

small_number : (n : ℕ) → n < 2 ^ 31 → wrap32 (Codec.parse_ll (some (decimal n))) ≡ pos n
small_number n fits =
    ap wrap32 (number n (omega arith)) ∙ wrap32-eq (pos n) (ground arith) (ground arith)

state_lem : (s : PlayState) → state_from (some (state_text s)) ≡ s
unfolding state_from
state_lem stopped = refl
state_lem playing = refl
state_lem paused = refl

device_lem : (d : DevState) → device_from (some (device_text d)) ≡ d
unfolding device_from
device_lem unknown = refl
device_lem active = refl
device_lem idle = refl

volume_lem : (v : Option ℕ) → SmallVolume v → volume_from (volume_text v) ≡ told_volume v
unfolding volume_from
volume_lem none fits = refl
volume_lem (some n) fits = small_number n fits

from_fields-told : (f : Fields) (v : Values) → Tells (Codec.get f) v → (from_fields [] f).0 ≡ told v
unfolding from_fields
from_fields-told f v h =
    rw (h.track, dup_or_null-plenty v.track, h.artist, dup_or_null-plenty v.artist)
      (rw (h.album, dup_or_null-plenty v.album, h.album_id, dup_or_null-plenty v.album_id)
        (rw (h.track_id, dup_or_null-plenty v.track_id, h.state, state_lem v.state)
          (rw (h.device, device_lem v.device, h.position, number v.position_ms h.position_fits)
            (rw (h.duration, number v.duration_ms h.duration_fits, h.ts, number v.ts h.ts_fits)
              (rw (h.queue, small_number v.queue_len h.queue_fits, h.api)
                (rw (small_number v.api h.api_fits, h.volume, volume_lem v.volume h.volume_fits)
                  refl))))))

Tells-map :
    {p q : Bytes → Option Bytes} {v : Values} → ((k : Bytes) → p k ≡ q k) → Tells q v → Tells p v
Tells-map same h = record {
  track = same _ ∙ h.track;
  artist = same _ ∙ h.artist;
  album = same _ ∙ h.album;
  album_id = same _ ∙ h.album_id;
  track_id = same _ ∙ h.track_id;
  state = same _ ∙ h.state;
  device = same _ ∙ h.device;
  position = same _ ∙ h.position;
  duration = same _ ∙ h.duration;
  ts = same _ ∙ h.ts;
  queue = same _ ∙ h.queue;
  api = same _ ∙ h.api;
  volume = same _ ∙ h.volume;
  position_fits = h.position_fits;
  duration_fits = h.duration_fits;
  ts_fits = h.ts_fits;
  queue_fits = h.queue_fits;
  api_fits = h.api_fits;
  volume_fits = h.volume_fits;
}

-- Round trip, with memory at hand: a document of pairs that a line can carry, in any order and with any
-- other keys among them, whose last values under the thirteen keys are a snapshot's texts, words and
-- decimal numbers (below 2^63, or 2^31 where the field is an `int`), is read back as that snapshot,
-- each value in its field, and a volume that is not told as -1, whichever way the lines end.
pub from_response-told :
    (e : Ending) (ps : List (Bytes × Bytes)) (v : Values)
    → AllPairs ps
    → Tells (λ k. lookup_last none k ps) v
    → (from_response [] (render e ps)).0 ≡ told v
unfolding from_response
from_response-told e ps v hp h =
    let f = (Codec.parse [] Codec.init (render e ps)).0 in
    rw (parse-memory Codec.init (render e ps))
      (from_fields-told f v (Tells-map (λ k. get-parse-render e ps k hp) h))
