-- ===== src/PairStore.antt =====
-- src/pair-store.ts: the one pairing token that is current. The clock and the random token are
-- arguments; the sweep timer is a call of `sweep`.
pub mod SingleUse
pub mod Tests
use threadbase_streamer.Prelude.{
  ℕ, ◌+◌, ◌*◌, Option, none, some, Bool, true, false, ltb, String, str_eq, if◌then◌else◌,
}

abbrev pub default_ttl_seconds : ℕ
default_ttl_seconds = 180

pub record PairTokenRecord : Type 0 where
  pub token : String
  pub expires_at : ℕ
  pub used : Bool

pub record PairTokenStore : Type 0 where
  pub current : Option PairTokenRecord
  pub ttl_ms : ℕ

pub data ConsumeResult : Type 0 where
  ok unknown expired used : ConsumeResult

abbrev ttl_seconds_or_default : Option ℕ → ℕ
ttl_seconds_or_default none = default_ttl_seconds
ttl_seconds_or_default (some seconds) = seconds

unfoldable pub create : Option ℕ → PairTokenStore
create ttl_seconds = record { current = none; ttl_ms = ttl_seconds_or_default ttl_seconds * 1000 }

unfoldable pub mint : PairTokenStore → String → ℕ → PairTokenStore
mint s token now = record s {
  current = some (record { token = token; expires_at = now + s.ttl_ms; used = false });
}

-- An expired token is dropped, whichever of the two callers asks.
check : PairTokenStore → String → ℕ → PairTokenStore × ConsumeResult
check s token now = elim s.current [
  | none ↦ (s, unknown)
  | some r ↦
      if str_eq r.token token
      then (if ltb r.expires_at now
          then (record s { current = none }, expired)
          else if r.used
          then (s, used)
          else (s, ok))
      else (s, unknown)
]

unfoldable pub would_consume : PairTokenStore → String → ℕ → PairTokenStore × ConsumeResult
unfolding check
would_consume s token now = check s token now

mark_used : Option PairTokenRecord → Option PairTokenRecord
mark_used none = none
mark_used (some r) = some (record r { used = true })

spend : PairTokenStore × ConsumeResult → PairTokenStore × ConsumeResult
unfolding mark_used
spend (s, ok) = (record s { current = mark_used s.current }, ok)
spend (s, unknown) = (s, unknown)
spend (s, expired) = (s, expired)
spend (s, used) = (s, used)

unfoldable pub consume : PairTokenStore → String → ℕ → PairTokenStore × ConsumeResult
unfolding check spend
consume s token now = spend (check s token now)

unfoldable pub clear : PairTokenStore → PairTokenStore
clear s = record s { current = none }

unfoldable pub sweep : PairTokenStore → ℕ → PairTokenStore
sweep s now = elim s.current [
  | none ↦ s
  | some r ↦ if ltb r.expires_at now then record s { current = none } else s
]
