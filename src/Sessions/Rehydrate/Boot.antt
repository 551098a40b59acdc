-- ===== src/Sessions/Rehydrate/Boot.antt =====
-- `rehydratePreviousSessions` (src/session-registry-boot.ts): the store is seeded with what earlier
-- runs left. The registry's query is a parameter: its rows are an argument, and so is which of them
-- throw in the loop.
use threadbase_streamer.Prelude.{
  ℕ, ◌≡◌, refl, List, [], ◌∷◌, Option, none, some, Bool, true, false, not, ◌&&◌, String, str_eq,
  arith, eq_iff, length, take, ltb, if◌then◌else◌, Option-cases, inl, inr,
}
use threadbase_streamer.Prelude.Dict.{Dict, get, put, get-put}
use threadbase_streamer.Sessions.Reconcile.{is_some, ManagedSessionRow, ReconcileVerdict, resumable}
use threadbase_streamer.Sessions.Store.{ManagedSession, SessionStore, add_managed}
use threadbase_streamer.Sessions.Rehydrate.{
  ShouldRehydrateOptions, RehydrateSkipReason, never_prompted, rehydrate_skip_reason,
  row_to_stub_session,
}

-- `REHYDRATE_MAX`.
abbrev pub rehydrate_max : ℕ
rehydrate_max = 25

-- What the boot writes: the store, the verdicts, the marks of terminals that ended here, and the
-- rows that it deletes.
pub record Boot : Type 0 where
  pub store : SessionStore
  pub session_verdicts : Dict ReconcileVerdict
  pub self_pty_ended_at : Dict ℕ
  pub deleted : List String

abbrev verdict_for : Dict ReconcileVerdict → String → ReconcileVerdict
verdict_for verdicts id = elim (get verdicts id) [
  | some v ↦ v
  | none ↦ record {
    session_id = id;
    lifecycle = resumable;
    reason = "recovered from the registry at boot";
  }
]

abbrev pub mark_ended : Dict ℕ → String → Option ℕ → Dict ℕ
mark_ended ended id none = ended
mark_ended ended id (some at) = put ended id at

-- A row that was never prompted is deleted; any other that is skipped stays in the registry.
abbrev pub skip_row : Boot → String → RehydrateSkipReason → Boot
skip_row boot id never_prompted = record boot { deleted = id ∷ boot.deleted }
skip_row boot id _ = boot

abbrev seed_row : Dict ReconcileVerdict → Boot → ManagedSessionRow → Boot
seed_row verdicts boot row = record {
  store = add_managed (row_to_stub_session row) boot.store;
  session_verdicts = put boot.session_verdicts row.session_id (verdict_for verdicts row.session_id);
  self_pty_ended_at = mark_ended boot.self_pty_ended_at row.session_id row.completed_at;
  deleted = boot.deleted;
}

-- One turn of the loop.
unfoldable pub rehydrate_row :
    ShouldRehydrateOptions → Dict ReconcileVerdict → Boot → ManagedSessionRow → Boot
rehydrate_row opts verdicts boot row = elim (get boot.store.managed row.session_id) [
  | some live ↦ boot
  | none ↦ elim (rehydrate_skip_reason row opts) [
    | some reason ↦ skip_row boot row.session_id reason
    | none ↦ seed_row verdicts boot row
  ]
]

unfoldable pub rehydrate_rows :
    ShouldRehydrateOptions → Dict ReconcileVerdict → List ManagedSessionRow → Boot → Boot
rehydrate_rows opts verdicts [] boot = boot
rehydrate_rows opts verdicts (row ∷ rows) boot =
    rehydrate_rows opts verdicts rows (rehydrate_row opts verdicts boot row)

-- The loop where a row may throw, by a read of the cache or by its delete: nothing of that row is
-- written, the rows before it stay seeded, and the rest is not reached.
unfoldable pub seed_rows :
    (ManagedSessionRow → Bool)
    → ShouldRehydrateOptions
    → Dict ReconcileVerdict
    → List ManagedSessionRow
    → Boot
    → Boot × Bool
seed_rows throws opts verdicts [] boot = (boot, true)
seed_rows throws opts verdicts (row ∷ rows) boot =
    let rest = seed_rows throws opts verdicts rows (rehydrate_row opts verdicts boot row) in
    if throws row && not (is_some (get boot.store.managed row.session_id))
    then (boot, false)
    else rest

abbrev caught : List ManagedSessionRow → Boot × Bool → List ManagedSessionRow × Boot
caught candidates (boot, done) = (if done then candidates else [], boot)

-- The rows that are considered, and the boot after them if the feature is on. Without the registry,
-- or where its query throws, there are no rows; where the loop throws, none are returned.
unfoldable pub rehydrate_previous_sessions :
    Bool
    → (ManagedSessionRow → Bool)
    → ShouldRehydrateOptions
    → Dict ReconcileVerdict
    → Option (List ManagedSessionRow)
    → Boot
    → List ManagedSessionRow × Boot
rehydrate_previous_sessions enabled throws opts verdicts none boot = ([], boot)
rehydrate_previous_sessions enabled throws opts verdicts (some rows) boot =
    let candidates = if ltb rehydrate_max (length rows) then take rehydrate_max rows else rows in
    if enabled
    then caught candidates (seed_rows throws opts verdicts candidates boot)
    else (candidates, boot)

-- Where no row throws, the loop runs to its end.
pub seed_rows-rehydrate_rows :
    (opts : ShouldRehydrateOptions) (verdicts : Dict ReconcileVerdict)
    (rows : List ManagedSessionRow) (boot : Boot)
    → seed_rows (λ row. false) opts verdicts rows boot
      ≡ (rehydrate_rows opts verdicts rows boot, true)
unfolding seed_rows rehydrate_rows
seed_rows-rehydrate_rows opts verdicts [] boot = refl
seed_rows-rehydrate_rows opts verdicts (row ∷ rows) boot =
    seed_rows-rehydrate_rows opts verdicts rows (rehydrate_row opts verdicts boot row)

-- The stub of the first row with an id that is not skipped.
abbrev pub stub_of :
    ShouldRehydrateOptions → List ManagedSessionRow → String → Option ManagedSession
stub_of opts [] id = none
stub_of opts (row ∷ rows) id =
    if str_eq row.session_id id
    then elim (rehydrate_skip_reason row opts) [
      | none ↦ some (row_to_stub_session row)
      | some reason ↦ stub_of opts rows id
    ]
    else stub_of opts rows id

abbrev pub or_stub : Option ManagedSession → Option ManagedSession → Option ManagedSession
or_stub (some live) stub = some live
or_stub none stub = stub

skip_row-store :
    (boot : Boot) (id : String) (reason : RehydrateSkipReason)
    → (skip_row boot id reason).store ≡ boot.store
skip_row-store boot id never_prompted = refl
skip_row-store boot id _ = refl

pub rehydrate_row-get :
    (opts : ShouldRehydrateOptions) (verdicts : Dict ReconcileVerdict) (boot : Boot)
    (row : ManagedSessionRow) (id : String)
    → get (rehydrate_row opts verdicts boot row).store.managed id
      ≡ or_stub (get boot.store.managed id) (stub_of opts (row ∷ []) id)
unfolding rehydrate_row add_managed row_to_stub_session
rehydrate_row-get opts verdicts boot row id = elim (Option-cases (rehydrate_skip_reason row opts)) [
  | inl kept ↦ ground (
    arith,
    eq_iff row.session_id id,
    eq_iff id row.session_id,
    get-put boot.store.managed row.session_id (row_to_stub_session row) id,
  )
  | inr (reason, skipped) ↦
      ground (arith, eq_iff row.session_id id, skip_row-store boot row.session_id reason)
]
