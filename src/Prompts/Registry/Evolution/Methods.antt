-- ===== src/Prompts/Registry/Evolution/Methods.antt =====
-- Every method keeps the prompts that have ended and numbers its events.
use threadbase_streamer.Prelude.{
  ℕ, ◌≡◌, inl, inr, refl, List, [], ◌∷◌, Option, none, some, Bool, true, false, String, arith,
  Option-cases,
}
use threadbase_streamer.Prelude.Dict.{Dict}
use threadbase_streamer.Prompts.{
  Prompt, PromptEntry, PromptState, PromptDraft, PromptQuestion, is_live,
}
use threadbase_streamer.Prompts.Registry.{
  amend, schedule_expiration, clear_expiration, require_entry, transition, ended, expire_if_due,
  expire, timer_at,
}
use threadbase_streamer.Prompts.Registry.Methods.{
  forget, sweep_one, sweep_all, drop_if_empty, sweep_expired, drop_oldest, enforce_cap, register,
  open_with, open_new, revised, update, merge_questions, revision_of, with_prompt, defer,
  close_entry, provider_closed, begin_write, end_write, invalidate_one, invalidate_all,
  invalidate_session, get_held, get_prompt, snapshot, timer_fires,
}
use threadbase_streamer.Prompts.Registry.Evolution.{
  Later, Advances, Keeps, Keeps-pure, Keeps-reads, Keeps-if, Keeps-bind, Keeps-amend, keeps_rules,
}

-- A change of an entry that leaves its prompt alone.
pub Keeps-amend-some :
    (a : ℕ) (g : PromptEntry → PromptEntry)
    → ((e : PromptEntry) → e.prompt ≡ (g e).prompt)
    → Keeps (amend a (λ e. some (g e)))
Keeps-amend-some a g same = Keeps-amend a (λ e. some (g e)) (λ e e' h. ground (arith, same e))

pub Keeps-clear_expiration : (a : ℕ) → Keeps (clear_expiration a)
unfolding clear_expiration
Keeps-clear_expiration a = Keeps-amend-some a (λ e. record e { expiry_timer = none }) (λ e. refl)

pub Keeps-schedule_expiration : (a now : ℕ) → Keeps (schedule_expiration a now)
unfolding schedule_expiration
Keeps-schedule_expiration a now =
    Keeps-amend-some a (λ e. record e { expiry_timer = timer_at now e.prompt.expires_at })
      (λ e. refl)

Advances-ended :
    (state : PromptState) (reason : String) (now : ℕ) → Advances (ended state reason now)
unfolding ended
Advances-ended state reason now e e' h = ground arith

pub Keeps-transition :
    (id : String) (state : PromptState) (reason : String) (now : ℕ)
    → Keeps (transition id state reason now)
unfolding transition require_entry
Keeps-transition id state reason now = search (keeps_rules, Advances-ended, Keeps-clear_expiration)

pub Keeps-expire_if_due : (a now : ℕ) → Keeps (expire_if_due a now)
unfolding expire_if_due expire
Keeps-expire_if_due a now = search (keeps_rules, Keeps-transition)

Keeps-forget : (session id : String) (a : ℕ) → Keeps (forget session id a)
unfolding forget
Keeps-forget session id a = search (keeps_rules, Keeps-clear_expiration)

Keeps-sweep_one : (session : String) (now : ℕ) (x : String × ℕ) → Keeps (sweep_one session now x)
unfolding sweep_one
Keeps-sweep_one session now (id, a) = search (keeps_rules, Keeps-expire_if_due, Keeps-forget)

Keeps-sweep_all : (session : String) (now : ℕ) (m : Dict ℕ) → Keeps (sweep_all session now m)
unfolding sweep_all
Keeps-sweep_all session now [] = search keeps_rules
Keeps-sweep_all session now (x ∷ m) =
    search (keeps_rules, Keeps-sweep_one session now x, Keeps-sweep_all session now m)

Keeps-drop_if_empty : (session : String) → Keeps (drop_if_empty session)
unfolding drop_if_empty
Keeps-drop_if_empty session = search keeps_rules

pub Keeps-sweep_expired : (session : String) (now : ℕ) → Keeps (sweep_expired session now)
unfolding sweep_expired
Keeps-sweep_expired session now = search (keeps_rules, Keeps-sweep_all, Keeps-drop_if_empty)

Keeps-drop_oldest : (session : String) (xs : List (String × ℕ × ℕ)) → Keeps (drop_oldest session xs)
unfolding drop_oldest
Keeps-drop_oldest session [] = search keeps_rules
Keeps-drop_oldest session ((id, a, at) ∷ xs) = Keeps-bind _ _ (Keeps-reads _) λ r.
    Keeps-if _ _ _ (Keeps-bind _ _ (Keeps-forget session id a) (λ _. Keeps-drop_oldest session xs))
      (Keeps-pure tt)

Keeps-enforce_cap : (session : String) → Keeps (enforce_cap session)
unfolding enforce_cap
Keeps-enforce_cap session = search (keeps_rules, Keeps-drop_oldest)

Keeps-register : (p : Prompt) (adapter : Bool) (now : ℕ) → Keeps (register p adapter now)
unfolding register
Keeps-register p adapter now =
    search (keeps_rules, Keeps-schedule_expiration, Keeps-enforce_cap) depth 9

-- What the schema's parse leaves alone.
pub record IsSchema (parse : Prompt → Option Prompt) : Type 0 where
  pub keeps_revision : (p q : Prompt) → parse p ≡ some q → p.revision ≡ q.revision
  pub keeps_state : (p q : Prompt) → parse p ≡ some q → p.state ≡ q.state

Keeps-open_with :
    (parse : Prompt → Option Prompt) (draft : PromptDraft) (adapter : Bool) (id : String)
    (ids : ℕ → String) (now : ℕ) (held : Option PromptState)
    → Keeps (open_with parse draft adapter id ids now held)
unfolding open_with
Keeps-open_with parse draft adapter id ids now none = search (keeps_rules, Keeps-register)
Keeps-open_with parse draft adapter id ids now (some state) = search (keeps_rules, Keeps-register)

pub Keeps-open_new :
    (parse : Prompt → Option Prompt) (draft : PromptDraft) (adapter : Bool) (id : String)
    (ids : ℕ → String) (now : ℕ)
    → Keeps (open_new parse draft adapter id ids now)
unfolding open_new
Keeps-open_new parse draft adapter id ids now =
    search (keeps_rules, Keeps-sweep_expired, Keeps-open_with)

Advances-with_prompt :
    (parse : Prompt → Option Prompt) (schema : IsSchema parse) (draft : PromptDraft) (id : String)
    (e e' : PromptEntry) (adapter : Bool) (qs : List PromptQuestion) (o : Option Prompt)
    → is_live e.prompt.state ≡ true
    → parse (revision_of draft id e qs) ≡ o
    → with_prompt e adapter o ≡ some e'
    → Later e e'
Advances-with_prompt parse schema draft id e e' adapter qs none live h k = absurd (ground arith)
Advances-with_prompt parse schema draft id e e' adapter qs (some q) live h k =
    ground (arith, schema.keeps_revision (revision_of draft id e qs) q h)

Advances-revised :
    (parse : Prompt → Option Prompt) (schema : IsSchema parse) (id : String) (draft : PromptDraft)
    (adapter : Bool)
    → Advances (revised parse id draft adapter)
unfolding revised
Advances-revised parse schema id draft adapter e e' h =
    elim (Option-cases (merge_questions e.prompt.questions draft.questions)) [
      | inl none_merged ↦ absurd (ground arith)
      | inr (qs, merged) ↦
          Advances-with_prompt parse schema draft id e e' adapter qs
            (parse (revision_of draft id e qs)) (ground arith) refl (ground arith)
    ]

pub Keeps-update :
    (parse : Prompt → Option Prompt) (schema : IsSchema parse) (id : String) (draft : PromptDraft)
    (adapter : Bool) (now : ℕ)
    → Keeps (update parse id draft adapter now)
unfolding update require_entry
Keeps-update parse schema id draft adapter now =
    search
      (keeps_rules, Keeps-expire_if_due, Advances-revised parse schema, Keeps-schedule_expiration)
      depth 9

Keeps-defer : (a : ℕ) (reason : String) → Keeps (amend a (defer reason))
unfolding defer
Keeps-defer a reason =
    Keeps-amend-some a (λ e. record e { deferred_close = some reason }) (λ e. refl)

pub Keeps-provider_closed : (id reason : String) (now : ℕ) → Keeps (provider_closed id reason now)
unfolding provider_closed close_entry
Keeps-provider_closed id reason now = search (keeps_rules, Keeps-defer, Keeps-transition) depth 9

pub Keeps-begin_write : (a : ℕ) → Keeps (begin_write a)
unfolding begin_write
Keeps-begin_write a = Keeps-amend-some a (λ e. record e { answering = true }) (λ e. refl)

pub Keeps-end_write : (a : ℕ) → Keeps (end_write a)
unfolding end_write
Keeps-end_write a =
    Keeps-amend-some a (λ e. record e { answering = false; deferred_close = none }) (λ e. refl)

Keeps-invalidate_one :
    (reason : String) (now : ℕ) (x : String × ℕ) → Keeps (invalidate_one reason now x)
unfolding invalidate_one
Keeps-invalidate_one reason now (id, a) = search (keeps_rules, Keeps-transition)

Keeps-invalidate_all :
    (reason : String) (now : ℕ) (m : Dict ℕ) → Keeps (invalidate_all reason now m)
unfolding invalidate_all
Keeps-invalidate_all reason now [] = search keeps_rules
Keeps-invalidate_all reason now (x ∷ m) =
    search (keeps_rules, Keeps-invalidate_one reason now x, Keeps-invalidate_all reason now m)

pub Keeps-invalidate_session :
    (session reason : String) (now : ℕ) → Keeps (invalidate_session session reason now)
unfolding invalidate_session
Keeps-invalidate_session session reason now = search (keeps_rules, Keeps-invalidate_all)

Keeps-get_held : (id : String) (now a : ℕ) → Keeps (get_held id now a)
unfolding get_held
Keeps-get_held id now a = search (keeps_rules, Keeps-sweep_expired)

pub Keeps-get_prompt : (id : String) (now : ℕ) → Keeps (get_prompt id now)
unfolding get_prompt
Keeps-get_prompt id now = search (keeps_rules, Keeps-get_held)

pub Keeps-snapshot : (session : String) (now : ℕ) → Keeps (snapshot session now)
unfolding snapshot
Keeps-snapshot session now = search (keeps_rules, Keeps-sweep_expired)

pub Keeps-timer_fires : (a now : ℕ) → Keeps (timer_fires a now)
unfolding timer_fires
Keeps-timer_fires a now =
    search (keeps_rules, Keeps-clear_expiration, Keeps-expire_if_due, Keeps-schedule_expiration)
