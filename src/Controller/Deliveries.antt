-- ===== src/Controller/Deliveries.antt =====
-- A webhook delivery takes effect once, or can be delivered again.
use leo_runners.Base.{
  ◌≡◌, refl, subst, sym, ap, ◌∙◌, ◌≢◌, ◌⊎◌, String, Option, none, some, Bool, true, false, Result,
  ok, err, live, arith, if◌then◌else◌,
}
use leo_runners.Base.Int.{eqb_ℤ→eq}
use leo_runners.Base.Time.{Time}
use leo_runners.Base.Text.{is_empty}
use leo_runners.Base.Dict.{get}
use leo_runners.State.Types
use leo_runners.State.Types.{LifecycleEvent, event_conflict}
use leo_runners.State.Memory.{MemoryRepository}
use leo_runners.State.Events.{insert_lifecycle_event, same_event, key_of}
use leo_runners.State.Idempotency.{insert-same, insert_again}
use leo_runners.Github.Events.{WorkflowJobEvent, action_text}
use leo_runners.Github.Scope.{ScopePolicy, ScopeError, validate, validate_event, checked, in_scope}
use leo_runners.Controller.Deployment.{
  Deployment, Settings, World, Done, repository, store, with_store, context_of,
}
use leo_runners.Controller.Handler.{
  handle_workflow_job, received, inserted, settle, act, admitted, delivery_of,
}
use leo_runners.Controller.Keeping.{Has}
use leo_runners.Controller.Events.{KeepsEvents, act-Kept}

module _ (rfc3339 : Time → String) (to_lower : String → String)
    (equal_fold : String → String → Bool) (d : Deployment) where
  open d use {around}

  abbrev handle : WorkflowJobEvent → Settings d → World d → Done d
  handle = handle_workflow_job rfc3339 to_lower equal_fold d

  -- The delivery is on record.
  abbrev Recorded : WorkflowJobEvent → MemoryRepository → Type 0
  Recorded e r =
      (old : LifecycleEvent) × (get (key_of (delivery_of e)) r.events ≡ some old)
      × (same_event old (delivery_of e) ≡ true)

  settle-none :
      (e : WorkflowJobEvent) (x : Done d) (w' : World d)
      → settle rfc3339 to_lower equal_fold d e x ≡ (w', none)
      → x ≡ (w', none)
  unfolding settle
  settle-none e (w, none) w' h = h
  settle-none e (w, some y) w' h = absurd (ground arith)

  inserted-Recorded :
      KeepsEvents d
      → (answer : MemoryRepository × Result Types.Error Bool) (e : WorkflowJobEvent)
        (c : Settings d) (w w' : World d)
      → ((b : Bool) → answer.1 ≡ ok b → Recorded e answer.0)
      → inserted rfc3339 to_lower equal_fold d answer e c w ≡ (w', none)
      → Recorded e (store d w')
  unfolding inserted
  inserted-Recorded keeps (r, err x) e c w w' there h = absurd (ground arith)
  inserted-Recorded keeps (r, ok false) e c w w' there h =
      subst (Recorded e) (ap (λ x. store d x.0) h) (there false refl)
  inserted-Recorded keeps (r, ok true) e c w w' there h =
      let (old, has, same) = there true refl in
      let acted =
        settle-none e (act rfc3339 to_lower equal_fold d e.action e c (with_store d w r)) w' h in
      (
        old,
        subst (Has d (key_of (delivery_of e)) old) (ap (λ x. store d x.0) acted) (
            act-Kept d keeps (key_of (delivery_of e)) old rfc3339 to_lower equal_fold e.action e c
              (with_store d w r) has),
        same,
      )

  received-none :
      (o : Option ScopeError) (e : WorkflowJobEvent) (c : Settings d) (w w' : World d)
      → received rfc3339 to_lower equal_fold d o e c w ≡ (w', none)
      → o ≡ none
  unfolding received
  received-none none e c w w' h = refl
  received-none (some x) e c w w' h = absurd (ground arith)

  repeat_answer : Bool → World d → Done d
  repeat_answer true w = (with_store d w (store d w), none)
  repeat_answer false w = (with_store d w (store d w), some (repository event_conflict))

  inserted_again :
      (same : Bool) (e : WorkflowJobEvent) (c : Settings d) (w : World d)
      → inserted rfc3339 to_lower equal_fold d
          (if same then (store d w, ok false) else (store d w, err event_conflict))
          e
          c
          w
        ≡ repeat_answer same w
  unfolding inserted repeat_answer
  inserted_again true e c w = refl
  inserted_again false e c w = refl

  -- A delivery whose key is taken.
  received_again :
      (old : LifecycleEvent) (e : WorkflowJobEvent) (c : Settings d) (w : World d)
      → get (key_of (delivery_of e)) (store d w).events ≡ some old
      → is_empty e.dedup_key ≡ false
      → is_empty (action_text e.action) ≡ false
      → context_of d w ≡ live
      → received rfc3339 to_lower equal_fold d none e c w
        ≡ repeat_answer (same_event old (delivery_of e)) w
  unfolding received key_of
  received_again old e c w there named kinded calm =
      let answer = insert_again (delivery_of e) old (store d w) there (rw named named) kinded in
      rw (calm, answer) (inserted_again (same_event old (delivery_of e)) e c w)

  same_event_later :
      (old v : LifecycleEvent) (t : Time)
      → same_event old v ≡ true
      → t ≢ v.occurred_at
      → same_event old (record v { occurred_at = t }) ≡ false
  unfolding same_event
  same_event_later old v t same moved =
      ground (arith, eqb_ℤ→eq old.occurred_at v.occurred_at, eqb_ℤ→eq old.occurred_at t)

  at_time : WorkflowJobEvent → Time → WorkflowJobEvent
  at_time e t = record e { received_at = t }

  in_scope_at :
      (o : Option String) (p : ScopePolicy) (e : WorkflowJobEvent) (r : String) (t : Time)
      → in_scope to_lower equal_fold o p (record e { received_at = t }) r
        ≡ in_scope to_lower equal_fold o p e r
  unfolding in_scope
  in_scope_at none p e r t = refl
  in_scope_at (some owner) p e r t = refl

  checked_at :
      (o : Option ScopeError) (p : ScopePolicy) (e : WorkflowJobEvent) (t : Time)
      → checked to_lower equal_fold o p (record e { received_at = t })
        ≡ checked to_lower equal_fold o p e
  unfolding checked
  checked_at (some x) p e t = refl
  checked_at none p e t = in_scope_at _ p e _ t

  admitted_at :
      (o : Option ScopePolicy) (e : WorkflowJobEvent) (t : Time)
      → admitted rfc3339 to_lower equal_fold d o (record e { received_at = t })
        ≡ admitted rfc3339 to_lower equal_fold d o e
  unfolding admitted validate_event
  admitted_at none e t = refl
  admitted_at (some p) e t = checked_at (validate to_lower p) p e t

  -- A delivery that was handled without an error takes effect once. Where its key and its action
  -- are not empty, the runner service keeps the events and the context is live: the same delivery
  -- once more changes nothing and is no error; but with another time of receipt, as
  -- `NormalizeWorkflowJob` stamps a delivery that GitHub repeats, it is refused with an event
  -- conflict, and changes nothing.
  pub delivered_once :
      KeepsEvents d
      → (e : WorkflowJobEvent) (c : Settings d) (w w' : World d) → is_empty e.dedup_key ≡ false
      → is_empty (action_text e.action) ≡ false
      → handle e c w ≡ (w', none)
      → context_of d w' ≡ live
      → (handle e c w' ≡ (with_store d w' (store d w'), none))
        × ((t : Time)
            → t ≢ e.received_at
            → handle (record e { received_at = t }) c w'
              ≡ (with_store d w' (store d w'), some (repository event_conflict)))
  unfolding handle_workflow_job received repeat_answer key_of
  delivered_once keeps e c w w' named kinded handled calm =
      let open_ =
        received-none (admitted rfc3339 to_lower equal_fold d c.scope_policy e) e c w w' handled in
      let answer = insert_lifecycle_event (context_of d w) (delivery_of e) (store d w) in
      let (old, there, same) =
        inserted-Recorded keeps answer e c w w'
          (λ b h.
            insert-same (context_of d w) (delivery_of e) (store d w) answer.0 b
              (ap (λ y. (answer.0, y)) h) named tt)
          (sym (ap (λ o. received rfc3339 to_lower equal_fold d o e c w) open_) ∙ handled) in
      (
        rw open_ (received_again old e c w' there named kinded calm ∙ rw same refl),
        λ t moved.
            rw (admitted_at c.scope_policy e t, open_)
              (received_again old (record e { received_at = t }) c w' there named kinded calm
                ∙ rw (same_event_later old (delivery_of e) t same moved) refl),
      )

  -- The delivery can be delivered again: the events are those of a repository, or have not its key.
  abbrev Forgotten : WorkflowJobEvent → MemoryRepository → MemoryRepository → Type 0
  Forgotten e r r' = (r'.events ≡ r.events) ⊎ (get e.dedup_key r'.events ≡ none)
