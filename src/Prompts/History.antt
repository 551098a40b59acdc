-- ===== src/Prompts/History.antt =====
-- Histories of a prompt registry: calls of its methods, timers that fire, turns of answers that
-- start and adapter calls that settle, in any order.
pub mod Ends
pub mod Once
pub mod Tests
use threadbase_streamer.Prelude.{ℕ, List, [], ◌∷◌, Option, Bool, String, ◌≡◌}
use threadbase_streamer.Prompts.{
  Prompt, PromptDraft, PromptState, PromptAnswer, PromptAdapterResult,
}
use threadbase_streamer.Prompts.Registry.{PromptRegistry, Action, transition}
use threadbase_streamer.Prompts.Registry.Methods.{
  open_new, update, provider_closed, begin_write, end_write, invalidate_session, get_prompt,
  snapshot, timer_fires,
}
use threadbase_streamer.Prompts.Registry.Answering.{submit, start, settle}
use threadbase_streamer.Prompts.Registry.Evolution.{Evolves, Evolves-refl, Evolves-trans, Keeps}
use threadbase_streamer.Prompts.Registry.Evolution.Methods.{
  IsSchema, Keeps-open_new, Keeps-update, Keeps-transition, Keeps-provider_closed,
  Keeps-begin_write, Keeps-end_write, Keeps-invalidate_session, Keeps-get_prompt, Keeps-snapshot,
  Keeps-timer_fires,
}
use threadbase_streamer.Prompts.Registry.Evolution.Answering.{
  Keeps-submit, Keeps-start, Keeps-settle,
}

pub data Call : Type 0 where
  opens : PromptDraft → Bool → String → (ℕ → String) → ℕ → Call
  updates : String → PromptDraft → Bool → ℕ → Call
  transitions : String → PromptState → String → ℕ → Call
  closes : String → String → ℕ → Call
  begins ends : ℕ → Call
  invalidates : String → String → ℕ → Call
  gets : String → ℕ → Call
  snapshots : String → ℕ → Call
  fires : ℕ → ℕ → Call
  submits : String → PromptAnswer → ℕ → Call
  starts : ℕ → ℕ → Call
  settles : ℕ → String → PromptAdapterResult → ℕ → Call

module _ (parse : Prompt → Option Prompt) where
  -- The registry after a call, whether it throws or not.
  unfoldable pub step : Call → PromptRegistry → PromptRegistry
  step (opens draft adapter id ids now) r = (open_new parse draft adapter id ids now r).0
  step (updates id draft adapter now) r = (update parse id draft adapter now r).0
  step (transitions id state reason now) r = (transition id state reason now r).0
  step (closes id reason now) r = (provider_closed id reason now r).0
  step (begins a) r = (begin_write a r).0
  step (ends a) r = (end_write a r).0
  step (invalidates session reason now) r = (invalidate_session session reason now r).0
  step (gets id now) r = (get_prompt id now r).0
  step (snapshots session now) r = (snapshot session now r).0
  step (fires a now) r = (timer_fires a now r).0
  step (submits session answer now) r = (submit session answer now r).0
  step (starts a now) r = (start a now r).0
  step (settles a id result now) r = (settle a id result now r).0

  unfoldable pub run : List Call → PromptRegistry → PromptRegistry
  run [] r = r
  run (c ∷ cs) r = run cs (step c r)

  step-Evolves : IsSchema parse → (c : Call) (r : PromptRegistry) → Evolves r (step c r)
  unfolding step
  step-Evolves schema (opens draft adapter id ids now) r =
      (Keeps-open_new parse draft adapter id ids now).at r
  step-Evolves schema (updates id draft adapter now) r =
      (Keeps-update parse schema id draft adapter now).at r
  step-Evolves schema (transitions id state reason now) r =
      (Keeps-transition id state reason now).at r
  step-Evolves schema (closes id reason now) r = (Keeps-provider_closed id reason now).at r
  step-Evolves schema (begins a) r = (Keeps-begin_write a).at r
  step-Evolves schema (ends a) r = (Keeps-end_write a).at r
  step-Evolves schema (invalidates session reason now) r =
      (Keeps-invalidate_session session reason now).at r
  step-Evolves schema (gets id now) r = (Keeps-get_prompt id now).at r
  step-Evolves schema (snapshots session now) r = (Keeps-snapshot session now).at r
  step-Evolves schema (fires a now) r = (Keeps-timer_fires a now).at r
  step-Evolves schema (submits session answer now) r = (Keeps-submit session answer now).at r
  step-Evolves schema (starts a now) r = (Keeps-start a now).at r
  step-Evolves schema (settles a id result now) r = (Keeps-settle a id result now).at r

  pub run-Evolves : IsSchema parse → (cs : List Call) (r : PromptRegistry) → Evolves r (run cs r)
  unfolding run
  run-Evolves schema [] r = Evolves-refl r
  run-Evolves schema (c ∷ cs) r =
      Evolves-trans r (step c r) (run cs (step c r)) (step-Evolves schema c r)
        (run-Evolves schema cs (step c r))
