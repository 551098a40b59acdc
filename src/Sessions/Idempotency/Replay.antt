-- ===== src/Sessions/Idempotency/Replay.antt =====
-- A remembered outcome is replayed for its key until it expires.
use threadbase_streamer.Prelude.{
  ℕ, zero, suc, ◌+◌, ◌-◌, ◌≤◌, ◌≡◌, refl, List, [], ◌∷◌, ◌++◌, none, some, Bool, false, not, ◌&&◌,
  leb, ltb, String, str_eq, eq_refl, length, length-append, length-drop, drop, keep_if, arith,
  if◌then◌else◌, All,
}
use threadbase_streamer.Prelude.Dict.{get-put}
use threadbase_streamer.Sessions.Idempotency.{
  Entry, IdempotencyStore, find_entry, last_of, entries_of, recall, pruned, remember, size,
}

module _ {A : Type 0} where
  abbrev Other : String → Entry A → Type 0
  Other key f = str_eq f.key key ≡ false

  Other-pruned :
      (key : String) (fresh : Entry A → Bool) (es : List (Entry A))
      → All (Other key) (keep_if (λ e. not (str_eq e.key key) && fresh e) es)
  Other-pruned key fresh [] = tt
  Other-pruned key fresh (e ∷ es) = ground (arith, Other-pruned key fresh es)

  find_entry-last :
      (e : Entry A) (n : ℕ) (es : List (Entry A))
      → n ≤ length es
      → All (Other e.key) es
      → find_entry (drop n (es ++ e ∷ [])) e.key ≡ some e
  unfolding find_entry
  find_entry-last e zero [] h other = ground (arith, eq_refl e.key)
  find_entry-last e (suc n) [] h other = absurd (omega arith)
  find_entry-last e zero (f ∷ es) h other =
      ground (arith, find_entry-last e zero es (omega arith) other.1)
  find_entry-last e (suc n) (f ∷ es) h other = find_entry-last e n es (omega arith) other.1

  find_entry-remembered :
      (s : IdempotencyStore A) (session key : String) (result : A) (now : ℕ)
      → 1 ≤ s.max_keys
      → find_entry (entries_of (remember s session key result now) session) key
        ≡ some (record { key = key; at = now; result = result })
  unfolding remember last_of pruned
  find_entry-remembered s session key result now h =
      let e : Entry A = record { key = key; at = now; result = result } in
      let kept = pruned s session key now in
      ground (
        arith,
        get-put s.by_session session (last_of s.max_keys (kept ++ e ∷ [])) session,
        eq_refl session,
        length-append kept (e ∷ []),
        find_entry-last e (length (kept ++ e ∷ []) - s.max_keys) kept
            (omega (arith, length-append kept (e ∷ [])))
            (Other-pruned key (λ f. leb now (f.at + s.ttl_ms)) (entries_of s session)),
      )

  remember_ttl :
      (s : IdempotencyStore A) (session key : String) (result : A) (now : ℕ)
      → (remember s session key result now).ttl_ms ≡ s.ttl_ms
  unfolding remember
  remember_ttl s session key result now = refl

  -- An outcome that was remembered is replayed for its session and key up to the end of its time to
  -- live and not after it, if the store keeps at least one key.
  recall-remember :
      (s : IdempotencyStore A) (session key : String) (result : A) (now later : ℕ)
      → 1 ≤ s.max_keys
      → (recall (remember s session key result now) session key later).1
        ≡ (if ltb (now + s.ttl_ms) later then none else some result)
  unfolding recall
  recall-remember s session key result now later h = ground (
    arith,
    find_entry-remembered s session key result now h,
    remember_ttl s session key result now,
  )

  -- A session has at most `max_keys` entries after a write, if that is at least 1, and the entries
  -- of another session are what they were.
  size-remember :
      (s : IdempotencyStore A) (session key : String) (result : A) (now : ℕ) (other : String)
      → 1 ≤ s.max_keys
      → str_eq other session ≡ false
      → (size (remember s session key result now) session ≤ s.max_keys)
        × (entries_of (remember s session key result now) other ≡ entries_of s other)
  unfolding remember last_of size
  size-remember s session key result now other h different =
      let all =
        pruned s session key now ++ (record { key = key; at = now; result = result }) ∷ [] in
      (
        ground (
          arith,
          get-put s.by_session session (last_of s.max_keys all) session,
          eq_refl session,
          length-drop (length all - s.max_keys) all,
        ),
        ground (arith, get-put s.by_session session (last_of s.max_keys all) other),
      )
