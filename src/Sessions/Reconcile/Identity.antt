-- ===== src/Sessions/Reconcile/Identity.antt =====
-- Liveness is not identity: what a verdict tells about the process behind it.
use text.Mathlib.Text.{find?}
use threadbase_streamer.Prelude.{
  str_eq, eq_iff, refl, ℕ, ◌≡◌, ◌≢◌, ◌⊎◌, inl, inr, Option, none, some, true, false, String, arith,
  Option-cases, Bool-cases,
}
use threadbase_streamer.Sessions.Reconcile.{
  ManagedSessionRow, ReconcileProbe, attached, detached, resumable, classify_session,
  resume_id_for_row, resumable_or_failed, terminal, gone, alive, verdict, matches, other_boot,
  is_some,
}

-- The row's process lives and its command line has the recorded token; and if the token of this boot
-- is known, the row was recorded with it.
pub record IsConfirmed (row : ManagedSessionRow) (probe : ReconcileProbe)
    (boot_token : Option String) : Type 0 where
  pub pid : ℕ
  pub recorded : row.pid ≡ some pid
  pub lives : probe.is_pid_alive pid ≡ true
  pub identity :
      (token : String) × (args : String) × ((row.cmdline ≡ some token)
        × (probe.get_process_args pid ≡ some args))
      × ((str_eq token "" ≡ false) × (is_some (find? args token) ≡ true))
  pub boot : (boot_token ≡ none) ⊎ (row.boot_token ≡ boot_token)
  pub unfinished : row.completed_at ≡ none

matched :
    (cmdline args : Option String)
    → matches cmdline args ≡ true
    → (token : String) × (text : String) × ((cmdline ≡ some token) × (args ≡ some text))
      × ((str_eq token "" ≡ false) × (is_some (find? text token) ≡ true))
matched none args h = absurd (ground arith)
matched (some token) none h = absurd (ground arith)
matched (some token) (some text) h = (token, text, (refl, refl), (ground arith, ground arith))

same_boot :
    (current recorded : Option String)
    → other_boot current recorded ≡ false
    → (current ≡ none) ⊎ (recorded ≡ current)
same_boot none recorded h = inl refl
same_boot (some current) none h = absurd (ground arith)
same_boot (some current) (some recorded) h = inr (ground (arith, eq_iff recorded current))

-- A session is called attached or detached only where its process lives with the recorded token in its
-- command line, the row is unfinished, and its boot token is that of this boot, if that is known.
pub claimed-IsConfirmed :
    (row : ManagedSessionRow) (probe : ReconcileProbe) (instance_id : String)
    (boot_token : Option String)
    → ((classify_session row probe instance_id boot_token).lifecycle ≡ attached)
      ⊎ ((classify_session row probe instance_id boot_token).lifecycle ≡ detached)
    → IsConfirmed row probe boot_token
unfolding classify_session terminal gone alive resumable_or_failed verdict
claimed-IsConfirmed row probe instance_id boot_token claimed = elim (Option-cases row.pid) [
  | inl e ↦ absurd (ground arith)
  | inr (pid, e) ↦ record {
    pid = pid;
    recorded = e;
    lives = ground arith;
    identity = matched row.cmdline (probe.get_process_args pid) (ground arith);
    boot = same_boot boot_token row.boot_token (ground arith);
    unfinished = ground arith;
  }
]

-- A session is called resumable only where some id resumes it, it has not finished, and its row has
-- no pid, or one of another boot, or one at which no process lives.
resumable-Resumable :
    (row : ManagedSessionRow) (probe : ReconcileProbe) (instance_id : String)
    (boot_token : Option String)
    → (classify_session row probe instance_id boot_token).lifecycle ≡ resumable
    → (resume_id_for_row row ≢ none)
      × (row.completed_at ≡ none)
      × ((row.pid ≡ none)
          ⊎ ((other_boot boot_token row.boot_token ≡ true)
              ⊎ ((pid : ℕ) × ((row.pid ≡ some pid) × (probe.is_pid_alive pid ≡ false)))))
unfolding classify_session terminal gone alive resumable_or_failed verdict
resumable-Resumable row probe instance_id boot_token h = (
  ground arith,
  ground arith,
  elim (Option-cases row.pid) [
    | inl e ↦ inl e
    | inr (pid, e) ↦ elim (Bool-cases (other_boot boot_token row.boot_token)) [
      | inl b ↦ inr (inl b)
      | inr b ↦ inr (inr (pid, (e, ground arith)))
    ]
  ],
)
