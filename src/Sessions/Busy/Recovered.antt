-- ===== src/Sessions/Busy/Recovered.antt =====
-- A session that was brought back at boot is not taken for another's.
pub mod Tests
use threadbase_streamer.Prelude.{
  ℕ, ◌+◌, ◌≤◌, ◌≡◌, str_eq, refl, ◌∙◌, List, [], ◌∷◌, Option, none, some, Bool, true, false, String,
  eq_iff, eq_refl, arith, Option-cases, inl, inr,
}
use threadbase_streamer.Prelude.Dict.{Dict, get, put, get-put}
use threadbase_streamer.Sessions.Reconcile.{ManagedSessionRow, ReconcileVerdict}
use threadbase_streamer.Sessions.Store.{ManagedSession, add_managed}
use threadbase_streamer.Sessions.Rehydrate.{
  ShouldRehydrateOptions, RehydrateSkipReason, never_prompted, rehydrate_skip_reason,
  row_to_stub_session,
}
use threadbase_streamer.Sessions.Rehydrate.Boot.{
  Boot, mark_ended, skip_row, rehydrate_row, rehydrate_rows, rehydrate_row-get,
}
use threadbase_streamer.Sessions.Busy.{
  ConversationBusyInput, self_activity_skew_ms, runs_conversation, is_shared, conversation_busy,
}

skip_row-marks :
    (boot : Boot) (id : String) (reason : RehydrateSkipReason)
    → (skip_row boot id reason).self_pty_ended_at ≡ boot.self_pty_ended_at
skip_row-marks boot id never_prompted = refl
skip_row-marks boot id _ = refl

mark_ended-get :
    (marks : Dict ℕ) (id asked : String) (ended : Option ℕ)
    → str_eq asked id ≡ false
    → get (mark_ended marks id ended) asked ≡ get marks asked
mark_ended-get marks id asked none h = refl
mark_ended-get marks id asked (some at) h = ground (arith, get-put marks id at asked)

-- A session in the store keeps its mark over a row.
rehydrate_row-marks :
    (opts : ShouldRehydrateOptions) (verdicts : Dict ReconcileVerdict) (boot : Boot)
    (row : ManagedSessionRow) (id : String) (s : ManagedSession)
    → get boot.store.managed id ≡ some s
    → get (rehydrate_row opts verdicts boot row).self_pty_ended_at id
      ≡ get boot.self_pty_ended_at id
unfolding rehydrate_row
rehydrate_row-marks opts verdicts boot row id s h =
    elim (Option-cases (get boot.store.managed row.session_id)) [
      | inl absent ↦
          let apart : str_eq id row.session_id ≡ false = ground (arith, eq_iff id row.session_id) in
          elim (Option-cases (rehydrate_skip_reason row opts)) [
            | inl kept ↦ ground (
              arith,
              mark_ended-get boot.self_pty_ended_at row.session_id id row.completed_at apart,
            )
            | inr (reason, skipped) ↦ ground (arith, skip_row-marks boot row.session_id reason)
          ]
      | inr (live, present) ↦ ground arith
    ]

rehydrate_rows-marks :
    (opts : ShouldRehydrateOptions) (verdicts : Dict ReconcileVerdict)
    (rows : List ManagedSessionRow) (boot : Boot) (id : String) (s : ManagedSession)
    → get boot.store.managed id ≡ some s
    → get (rehydrate_rows opts verdicts rows boot).self_pty_ended_at id
      ≡ get boot.self_pty_ended_at id
unfolding rehydrate_rows
rehydrate_rows-marks opts verdicts [] boot id s h = refl
rehydrate_rows-marks opts verdicts (row ∷ rows) boot id s h =
    rehydrate_rows-marks opts verdicts rows (rehydrate_row opts verdicts boot row) id s
      (ground (arith, rehydrate_row-get opts verdicts boot row id))
    ∙ rehydrate_row-marks opts verdicts boot row id s h

-- A row that comes back leaves the time of its end as the mark, whatever rows follow it.
recovered-mark :
    (opts : ShouldRehydrateOptions) (verdicts : Dict ReconcileVerdict) (row : ManagedSessionRow)
    (rows : List ManagedSessionRow) (boot : Boot) (ended : ℕ)
    → get boot.store.managed row.session_id ≡ none
    → rehydrate_skip_reason row opts ≡ none
    → row.completed_at ≡ some ended
    → get (rehydrate_rows opts verdicts (row ∷ rows) boot).self_pty_ended_at row.session_id
      ≡ some ended
unfolding rehydrate_rows rehydrate_row
recovered-mark opts verdicts row rows boot ended absent kept e =
    let id = row.session_id in
    rehydrate_rows-marks opts verdicts rows (rehydrate_row opts verdicts boot row) id
      (row_to_stub_session row)
      (ground (arith, rehydrate_row-get opts verdicts boot row id, eq_iff id id))
    ∙ ground (arith, eq_iff id id, get-put boot.self_pty_ended_at id ended id)

-- A session that comes back at boot, whose file was last written at most 5 seconds after its recorded
-- end, is not busy for a resume, if no process that was found runs its conversation or in its project.
pub recovered-Free :
    (canonicalize_project_path : String → String) (opts : ShouldRehydrateOptions)
    (verdicts : Dict ReconcileVerdict) (row : ManagedSessionRow) (rows : List ManagedSessionRow)
    (boot : Boot) (input : ConversationBusyInput) (ended mtime : ℕ)
    → get boot.store.managed row.session_id ≡ none
    → rehydrate_skip_reason row opts ≡ none
    → row.completed_at ≡ some ended
    → input.self_pty_ended_at
      ≡ get (rehydrate_rows opts verdicts (row ∷ rows) boot).self_pty_ended_at row.session_id
    → input.file_mtime ≡ some mtime
    → mtime ≤ ended + self_activity_skew_ms
    → runs_conversation input.conversation_id input.discovered ≡ false
    → is_shared canonicalize_project_path input input.project_path ≡ false
    → (conversation_busy canonicalize_project_path input).busy ≡ false
unfolding conversation_busy
recovered-Free c opts verdicts row rows boot input ended mtime absent kept e marked file late argv
      cwd =
    ground (arith, recovered-mark opts verdicts row rows boot ended absent kept e)
