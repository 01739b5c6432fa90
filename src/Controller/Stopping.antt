-- ===== src/Controller/Stopping.antt =====
-- Which machine `finish` terminates, and with which provider.
use leo_runners.Base.{
  ◌≡◌, refl, ap, ◌∙◌, ◌⊎◌, inl, inr, String, Option, none, some, Bool-cases, Context, suc, sym,
  some_injective, Bool,
}
use leo_runners.Base.Time.{Time}
use leo_runners.Base.Dict.{Dict, get}
use leo_runners.State.Types.{Job, Runner, JobState}
use leo_runners.State.Memory.{MemoryRepository, save_job}
use leo_runners.Lifecycle.Provider.{RunnerInstance}
use leo_runners.Lifecycle.Transitions.{TransitionError, transition, valid_transition}
use leo_runners.Controller.Deployment.{
  Deployment, Settings, World, now, context_of, store, with_store, transition_now, move_ended,
  move_job,
}
use leo_runners.Controller.Finishing.{provider_named}
use leo_runners.Controller.Names.{move_saved-store}

transition-rest :
    (sink : Bool) (clock : Time × Time) (ctx : Context) (job : Job) (to : JobState)
    (r : MemoryRepository)
    → ((transition sink clock ctx (some job) to r).store.runners ≡ r.runners)
      × ((transition sink clock ctx (some job) to r).store.leases ≡ r.leases)
unfolding transition save_job
transition-rest sink clock ctx job to r = elim (Bool-cases (valid_transition job.state to)) [
  | inl valid ↦ rw (transition, valid, move_saved-store) (refl, refl)
  | inr invalid ↦ rw (transition, invalid) (refl, refl)
]

module _ (d : Deployment) where
  open d use {floats, cloud, around}

  -- The provider that serves a runner: the deployment's only one, or the one that its providers
  -- have under the name that the runner carries.
  abbrev pub Serves : Settings d → Runner → cloud.Handle → Type 0
  Serves c v h =
      ((c.providers ≡ none) × (h ≡ c.provider))
      ⊎ ((m : Dict cloud.Handle) × (c.providers ≡ some m) × (get v.provider m ≡ some h))

  named_or_only :
      (o : Option (Dict cloud.Handle)) (h0 h : cloud.Handle) (name : String)
      → provider_named d o h0 name ≡ some h
      → ((o ≡ none) × (h ≡ h0)) ⊎ ((m : Dict cloud.Handle) × (o ≡ some m) × (get name m ≡ some h))
  named_or_only none h0 h name found = inl (refl, sym (some_injective found))
  named_or_only (some m) h0 h name found = inr (m, refl, found)

  pub provider_named-Serves :
      (c : Settings d) (v : Runner) (h : cloud.Handle)
      → provider_named d c.providers c.provider v.provider ≡ some h
      → Serves c v h
  provider_named-Serves c v h found = named_or_only c.providers c.provider h v.provider found

  -- The machines are those that `terminate` left, called at the machines `s` with the provider that
  -- serves the runner `v` and with an instance that carries its identifier, its instance identifier
  -- and its provider's name, and answered without an error.
  abbrev pub Terminated : Settings d → Runner → cloud.State → cloud.State → Type 0
  Terminated c v s t =
      (h : cloud.Handle) × (ctx : Context) × (i : RunnerInstance) × Serves c v h
      × (i.id ≡ v.id)
      × (i.provider_id ≡ v.provider_instance_id)
      × (i.provider ≡ v.provider)
      × (cloud.terminate h s ctx i ≡ (t, none))

  -- The runners, the leases and the machines are as they were.
  pub record Untouched (w w' : World d) : Type 0 where
    pub runners : (store d w').runners ≡ (store d w).runners
    pub leases : (store d w').leases ≡ (store d w).leases
    pub machines : w'.site.state ≡ w.site.state

  abbrev pub untouched : (w : World d) → Untouched w w
  untouched w = record { runners = refl; leases = refl; machines = refl }

  pub move_ended-world : (o : Option TransitionError) (w : World d) → (move_ended d o w).0 ≡ w
  unfolding move_ended
  move_ended-world none w = refl
  move_ended-world (some e) w = refl

  pub move_job-Untouched :
      (c : Settings d) (job : Job) (to : JobState) (w : World d)
      → Untouched w (move_job d c job to w).0
  unfolding move_job transition_now
  move_job-Untouched c job to w =
      let m = transition_now d c job to w in
      let there = move_ended-world m.error (with_store d w m.store) in
      let (runners, leases) =
        transition-rest c.has_sink (now d w, around.clock (suc w.step)) (context_of d w) job to
          (store d w) in
      record {
        runners = ap (λ u. (store d u).runners) there ∙ runners;
        leases = ap (λ u. (store d u).leases) there ∙ leases;
        machines = ap (λ u. u.site.state) there;
      }
