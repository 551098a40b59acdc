-- ===== src/Prompts/History/Once.antt =====
-- An answer is accepted once.
use threadbase_streamer.Prelude.{ℕ, ◌≡◌, ◌≢◌, Option, some, get_elem?, arith, String, List}
use threadbase_streamer.Prelude.Dict.{get}
use threadbase_streamer.Prompts.{Prompt, PromptEntry, answered, PromptAdapterResult, resolved}
use threadbase_streamer.Prompts.Registry.{PromptRegistry}
use threadbase_streamer.Prompts.Registry.Answering.{settle}
use threadbase_streamer.Prompts.Registry.Answering.Resolves.{settle-Ends}
use threadbase_streamer.Prompts.Registry.Evolution.Methods.{IsSchema}
use threadbase_streamer.Prompts.History.{Call, run}
use threadbase_streamer.Prompts.History.Ends.{ended_stays}

module _ (parse : Prompt → Option Prompt) (schema : IsSchema parse) where
  -- Where a turn ends with an accepted answer, its entry's prompt is resolved, and after any history
  -- of calls it is still the prompt that the outcome has, and no turn of the entry ends with an
  -- accepted answer again, under whichever id still names the entry.
  pub answered_once :
      (cs : List Call) (r : PromptRegistry) (a now now' : ℕ) (id id' : String)
      (result result' : PromptAdapterResult) (p q : Prompt)
      → get r.by_id id ≡ some a
      → (settle a id result now r).1 ≡ some (answered p)
      → get (run parse cs (settle a id result now r).0).by_id id' ≡ some a
      → (p.state ≡ resolved)
        × ((e : PromptEntry) × ((get_elem? (run parse cs (settle a id result now r).0).objects a
                ≡ some e)
              × (e.prompt ≡ p)))
        × ((settle a id' result' now' (run parse cs (settle a id result now r).0)).1
            ≢ some (answered q))
  answered_once cs r a now now' id id' result result' p q held h held' =
      let after = (settle a id result now r).0 in
      let (e, e', (at, live, at', is_p, state)) = settle-Ends a id result now r p held h in
      let (e'', (at'', same)) = ended_stays parse schema cs after a e' at' (ground arith) in
      (
        state,
        (e'', (at'', ground arith)),
        λ again.
            let (x, x', (there, alive, more, is_q, ends)) =
              settle-Ends a id' result' now' (run parse cs after) q held' again in
            ground arith,
      )
