-- ===== src/E2ee/Record/Sealer.antt =====
-- src/e2ee/record.ts: `RestResponseSealer`, which seals at most one response for each request
-- counter. A counter is a natural number: `readBigUInt64BE` gives no other.
pub mod Invariant
pub mod Once
pub mod Response
pub mod Tests
use threadbase_streamer.Prelude.{
  ℕ, ◌+◌, ◌≡◌, List, [], ◌∷◌, ◌++◌, Option, none, some, Bool, true, false, not, ◌&&◌, ◌||◌, leb,
  ltb, ◌==◌, has, keep_if, length, if◌then◌else◌,
}
use threadbase_streamer.Prelude.Int.{ℤ, pos, negsuc, ltb_ℤ, leb_ℤ}
use threadbase_streamer.E2ee.Protocol.{
  Result, ok, err, RejectionCode, ctx_unknown, seal_failed, require, ◌>>=◌, ◌>>◌,
}
use threadbase_streamer.E2ee.Bitmap.{window_counters, test, mark, blank, slide}
use threadbase_streamer.E2ee.Record.{
  Aead, RecordHeader, seal_with, protocol_version, direction_s2c, channel_rest_response,
  is_valid_target, ctx_id_bytes,
}

pub record RestResponseSealer (Key : Type 0) : Type 0 where
  pub key : Key
  pub ctx_id : List ℕ
  pub outstanding : List ℕ
  pub answered_bits : List ℕ
  pub accepted_high_water : ℤ

-- Whether a counter is a whole window behind a high-water mark.
abbrev pub is_below : ℤ → ℕ → Bool
is_below high_water c = leb_ℤ (pos (c + window_counters)) high_water

module _ {Key : Type 0} where
  -- `new RestResponseSealer(…)`.
  unfoldable pub create : Key → List ℕ → Result (RestResponseSealer Key)
  create key ctx_id = do
    require (length ctx_id == ctx_id_bytes) seal_failed
    ok (record {
      key = key;
      ctx_id = ctx_id;
      outstanding = [];
      answered_bits = blank;
      accepted_high_water = negsuc 0;
    })

  abbrev pub below_window : RestResponseSealer Key → ℕ → Bool
  below_window s c = is_below s.accepted_high_water c

  unfoldable pub is_answered : RestResponseSealer Key → ℕ → Bool
  is_answered s c =
      if ltb_ℤ s.accepted_high_water (pos c) || below_window s c
      then false
      else test s.answered_bits c

  unfoldable pub mark_answered : RestResponseSealer Key → ℕ → RestResponseSealer Key
  mark_answered s c = record s { answered_bits = mark s.answered_bits c }

  -- `advanceTo`: pending counters that fall out of the window are dropped.
  unfoldable pub advance_to : RestResponseSealer Key → ℕ → RestResponseSealer Key
  advance_to s c = if leb_ℤ (pos c) s.accepted_high_water then s else record s {
    outstanding = keep_if (λ d. not (is_below (pos c) d)) s.outstanding;
    answered_bits = slide s.answered_bits s.accepted_high_water c;
    accepted_high_water = pos c;
  }

  unfoldable pub accept : RestResponseSealer Key → ℕ → Result (RestResponseSealer Key)
  accept s c =
      if has c s.outstanding
      then err seal_failed
      else if below_window s c
      then err ctx_unknown
      else if is_answered s c
      then err seal_failed
      else (let s' = advance_to s c in ok (record s' { outstanding = s'.outstanding ++ c ∷ [] }))

  pub is_outstanding : RestResponseSealer Key → ℕ → Bool
  is_outstanding s c = has c s.outstanding

  -- The code for a counter that no accepted request waits on.
  refusal : RestResponseSealer Key → ℕ → RejectionCode
  refusal s c =
      if below_window s c
      then ctx_unknown
      else if is_answered s c
      then seal_failed
      else if leb_ℤ (pos c) s.accepted_high_water
      then ctx_unknown
      else seal_failed

  -- `this.#outstanding.delete(counter)`, then `markAnswered`: what `seal` does before it encrypts.
  unfoldable pub spend : RestResponseSealer Key → ℕ → RestResponseSealer Key
  spend s c = mark_answered (record s { outstanding = keep_if (λ d. not (d == c)) s.outstanding }) c

  abbrev pub response_header : RestResponseSealer Key → ℕ → RecordHeader
  response_header s c = record {
    version = protocol_version;
    ctx_id = s.ctx_id;
    direction = direction_s2c;
    counter = c;
    channel = channel_rest_response;
  }

  -- `seal`: the sealer afterwards, which has spent the acceptance also where the encryption throws,
  -- and the frame.
  unfoldable pub seal :
      Aead Key
      → RestResponseSealer Key
      → ℕ
      → List ℕ
      → List ℕ
      → RestResponseSealer Key × Result (List ℕ)
  unfolding refusal
  seal aead s c plaintext target =
      if is_valid_target channel_rest_response (some target)
      then (if has c s.outstanding
          then (spend s c, seal_with aead s.key (response_header s c) plaintext (some target))
          else (s, err (refusal s c)))
      else (s, err seal_failed)
