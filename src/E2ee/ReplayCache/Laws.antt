-- ===== src/E2ee/ReplayCache/Laws.antt =====
-- What the replay cache promises: it stays within its capacity, and a key that was recorded is
-- seen from then until its expiry, which looking it up does not move.
use threadbase_streamer.Prelude.{
  ℕ, zero, suc, ◌+◌, ◌≤◌, ◌≡◌, [], ◌∷◌, ltb, le→leb, leb→le, lt→ltb, ltb→lt, length, String, arith,
  eq_refl,
}
use threadbase_streamer.Prelude.Dict.{Dict, put, get-put, get-remove, length-put}
use threadbase_streamer.E2ee.ReplayCache.{ReplayCache, has_seen, record_key, prune, make_room}

length-prune : (budget now : ℕ) (m : Dict ℕ) → length (prune budget now m) ≤ length m
unfolding prune
length-prune zero now m = omega arith
length-prune (suc budget) now [] = omega arith
length-prune (suc budget) now ((k, e) ∷ m) = ground (arith, length-prune budget now m)

length-make_room :
    (capacity : ℕ) (m : Dict ℕ) → 1 ≤ capacity → length (make_room capacity m) + 1 ≤ capacity
unfolding make_room
length-make_room capacity [] h = h
length-make_room capacity ((k, e) ∷ m) h =
    ground (arith, length-make_room capacity m h, le→leb capacity (length m + 1))

-- `record` leaves at most `capacity` entries, however many there were, for a capacity of at least 1.
pub record_key-Bounded :
    (c : ReplayCache) (key : String) (now : ℕ)
    → 1 ≤ c.capacity
    → length (record_key c key now).seen ≤ c.capacity
unfolding record_key
record_key-Bounded c key now h =
    let kept = make_room c.capacity (prune 128 now c.seen) in
    omega (
      arith,
      length-put kept key (now + c.ttl_ms),
      length-make_room c.capacity (prune 128 now c.seen) h,
    )

-- A key that was just recorded is seen before `now + ttl_ms` and not from then on; the lookup in
-- between changes nothing of that.
has_seen-record_key :
    (c : ReplayCache) (key : String) (now between later : ℕ)
    → between ≤ later
    → (has_seen (has_seen (record_key c key now) key between).0 key later).1
      ≡ ltb later (now + c.ttl_ms)
unfolding has_seen record_key
has_seen-record_key c key now between later h = ground (
  arith,
  get-put (make_room c.capacity (prune 128 now c.seen)) key (now + c.ttl_ms) key,
  get-remove (put (make_room c.capacity (prune 128 now c.seen)) key (now + c.ttl_ms)) key key,
  eq_refl key,
  leb→le (now + c.ttl_ms) between,
  leb→le (now + c.ttl_ms) later,
  le→leb (now + c.ttl_ms) later,
  ltb→lt later (now + c.ttl_ms),
  lt→ltb later (now + c.ttl_ms),
)
