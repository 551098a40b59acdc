-- ===== src/Prompts/History/Ends.antt =====
-- How prompts end, over any history.
use threadbase_streamer.Prelude.{ℕ, ◌≡◌, refl, List, Option, some, false, get_elem?, arith}
use threadbase_streamer.Prelude.Dict.{get}
use threadbase_streamer.Prompts.{Prompt, PromptEntry, is_live}
use threadbase_streamer.Prompts.Registry.{PromptRegistry}
use threadbase_streamer.Prompts.Registry.Methods.{create}
use threadbase_streamer.Prompts.Registry.Evolution.{Numbered, get_elem?-AllLater}
use threadbase_streamer.Prompts.Registry.Evolution.Methods.{IsSchema}
use threadbase_streamer.Prompts.History.{Call, run, run-Evolves}

module _ (parse : Prompt → Option Prompt) (schema : IsSchema parse) where
  -- A prompt that has ended is the same after any history of calls.
  pub ended_stays :
      (cs : List Call) (r : PromptRegistry) (a : ℕ) (e : PromptEntry)
      → get_elem? r.objects a ≡ some e
      → is_live e.prompt.state ≡ false
      → (e' : PromptEntry) × ((get_elem? (run parse cs r).objects a ≡ some e')
          × (e'.prompt ≡ e.prompt))
  ended_stays cs r a e h dead =
      let (e', (found, later)) =
        get_elem?-AllLater r.objects (run parse cs r).objects a e
          ((run-Evolves parse schema cs r).0) h in
      (e', (found, ground arith))

  -- From a new registry, whatever calls are made, every event of a session has the number after
  -- the one before it, from 1 on.
  pub events-Numbered :
      (cs : List Call) (retention max : ℕ) → Numbered (run parse cs (create retention max)).effects
  unfolding create get
  events-Numbered cs retention max =
      ((run-Evolves parse schema cs (create retention max)).1 (tt, λ session. refl)).0
