-- ===== src/Lifecycle/Confirmation.antt =====
-- A runner is recorded as terminated only when its provider has confirmed that it is gone.
use leo_runners.Base.{
  ◌≡◌, ℕ, refl, inl, inr, String, List, [], ◌∷◌, Option, none, some, Bool, Bool-cases, true, Result,
  ok, err, Context, live, done, arith,
}
use leo_runners.Base.Int.{ℤ, pos, eqb_ℤ}
use leo_runners.Base.Time.{Time}
use leo_runners.Base.Dict.{Dict, get}
use leo_runners.Base.Keys.{Each, put-Each}
use leo_runners.State.Types
use leo_runners.State.Types.{Runner, runner_is, terminating, terminated}
use leo_runners.State.Table
use leo_runners.State.Table.{Entity, save, save_over, save_cases, first_version, next_version}
use leo_runners.State.Memory.{runner_entity, save_runner}
use leo_runners.Lifecycle.Provider.{Provider, ProviderError, Confirms}
use leo_runners.Lifecycle.System.{Surroundings, System, instance_of, save_now, terminate_now}
use leo_runners.Lifecycle.Reaper.{
  Pass, Report, in_state, not_due, mark_terminating, terminate_saved, terminate_confirmed,
  terminate_marked, terminate_runner, reap_saved, reap_confirmed, reap_marked, reap_one,
  reap_expired, reap_listed, reap, if_live, tick,
}

module _ (entity : Entity) where
  open entity use {Record, id, revision}

  save_over-Each :
      (Q : String → Record → Type 0) (o : Option Record) (now : Time) (v : Record) (expected : ℤ)
      (t : Table.Table entity)
      → Each Q t
      → Q (id v) (first_version entity now v)
      → ((old : Record) → Q (id v) (next_version entity now old v))
      → Each Q (save_over entity o now v expected t).0
  unfolding save_over
  save_over-Each Q none now v expected t e first next = elim (Bool-cases (eqb_ℤ expected (pos 0))) [
    | inl free ↦ rw free (put-Each Q (id v) (first_version entity now v) t first e)
    | inr other ↦ rw other e
  ]
  save_over-Each Q (some old) now v expected t e first next =
      elim (Bool-cases (eqb_ℤ expected (revision old))) [
        | inl same ↦ rw same (put-Each Q (id v) (next_version entity now old v) t (next old) e)
        | inr other ↦ rw other e
      ]

  -- What holds of every record, and of the one to be saved, holds of every record after the save.
  pub save-Each :
      (Q : String → Record → Type 0) (now : Time) (ctx : Context) (v : Record) (expected : ℤ)
      (t : Table.Table entity)
      → Each Q t
      → Q (id v) (first_version entity now v)
      → ((old : Record) → Q (id v) (next_version entity now old v))
      → Each Q (save entity now ctx v expected t).0
  save-Each Q now ctx v expected t e first next =
      save_cases entity (Each Q) now ctx v expected t e
        (save_over-Each Q (get (id v) t) now v expected t e first next)

module _ (backend : Provider) (confirms : Confirms backend) (around : Surroundings) where
  open confirms use {Gone, terminate-Gone, keeps-Gone}

  -- The provider's instance of a runner that is recorded as terminated is gone.
  abbrev pub Confirmed : backend.State → String → Runner → Type 0
  Confirmed s k v = runner_is v.state terminated ≡ true → Gone s (instance_of v)

  abbrev pub IsConfirmed : System backend → Type 0
  IsConfirmed sys = Each (Confirmed sys.state) sys.repository.runners

  pub save_now-IsConfirmed :
      (v : Runner) (sys : System backend)
      → IsConfirmed sys
      → Confirmed sys.state v.id v
      → IsConfirmed (save_now backend around v sys).0
  unfolding save_now save_runner first_version next_version
  save_now-IsConfirmed v sys c gone =
      save-Each runner_entity (Confirmed sys.state) _ _ v v.revision sys.repository.runners c gone
        (λ old. gone)

  terminate_now-IsConfirmed :
      (v : Runner) (sys : System backend)
      → IsConfirmed sys
      → IsConfirmed (terminate_now backend around v sys).0
  unfolding terminate_now
  terminate_now-IsConfirmed v sys c k w there gone =
      keeps-Gone sys.state (around.contexts sys.step) (instance_of v) (instance_of w)
        (c k w there gone)

  mark-IsConfirmed :
      (v : Runner) (sys : System backend)
      → IsConfirmed sys
      → IsConfirmed (mark_terminating backend around v sys).0
  unfolding mark_terminating
  mark-IsConfirmed v sys c = elim (Bool-cases (runner_is v.state terminating)) [
    | inl already ↦ rw already c
    | inr other ↦
        rw other (save_now-IsConfirmed (in_state v terminating) sys c (λ h. absurd (ground arith)))
  ]

  -- What a termination gives: if it is confirmed, the runner's instance is gone.
  abbrev Answered : Runner → System backend × Option ProviderError → Type 0
  Answered v answer = IsConfirmed answer.0 × (answer.1 ≡ none → Gone answer.0.state (instance_of v))

  terminate_now-Answered :
      (v : Runner) (sys : System backend)
      → IsConfirmed sys
      → Answered v (terminate_now backend around v sys)
  unfolding terminate_now
  terminate_now-Answered v sys c = (
    terminate_now-IsConfirmed v sys c,
    λ h. terminate-Gone sys.state (around.contexts sys.step) (instance_of v) h,
  )

  terminate_saved-IsConfirmed :
      (saved : System backend × Result Types.Error Runner) (id : String)
      → IsConfirmed saved.0
      → IsConfirmed (terminate_saved backend around saved id).0
  unfolding terminate_saved
  terminate_saved-IsConfirmed (sys, err e) id c = c
  terminate_saved-IsConfirmed (sys, ok updated) id c = c

  terminate_confirmed-IsConfirmed :
      (answer : System backend × Option ProviderError) (v : Runner)
      → Answered v answer
      → IsConfirmed (terminate_confirmed backend around answer v).0
  unfolding terminate_confirmed
  terminate_confirmed-IsConfirmed (sys, some e) v a = a.0
  terminate_confirmed-IsConfirmed (sys, none) v a =
      terminate_saved-IsConfirmed (save_now backend around (in_state v terminated) sys) v.id
        (save_now-IsConfirmed (in_state v terminated) sys a.0 (λ h. a.1 refl))

  terminate_marked-IsConfirmed :
      (marked : System backend × Result Types.Error Runner) (id : String)
      → IsConfirmed marked.0
      → IsConfirmed (terminate_marked backend around marked id).0
  unfolding terminate_marked
  terminate_marked-IsConfirmed (sys, err e) id c = c
  terminate_marked-IsConfirmed (sys, ok v) id c =
      terminate_confirmed-IsConfirmed (terminate_now backend around v sys) v
        (terminate_now-Answered v sys c)

  pub terminate_runner-IsConfirmed :
      (v : Runner) (sys : System backend)
      → IsConfirmed sys
      → IsConfirmed (terminate_runner backend around v sys).0
  unfolding terminate_runner
  terminate_runner-IsConfirmed v sys c =
      terminate_marked-IsConfirmed (mark_terminating backend around v sys) v.id
        (mark-IsConfirmed v sys c)

  reap_saved-IsConfirmed :
      (saved : System backend × Result Types.Error Runner) (id : String) (p : Report)
      (view : Dict Runner)
      → IsConfirmed saved.0
      → IsConfirmed (reap_saved backend around saved id p view).0
  unfolding reap_saved
  reap_saved-IsConfirmed (sys, err e) id p view c = c
  reap_saved-IsConfirmed (sys, ok updated) id p view c = c

  reap_confirmed-IsConfirmed :
      (answer : System backend × Option ProviderError) (id : String) (v : Runner) (p : Report)
      (view : Dict Runner)
      → Answered v answer
      → IsConfirmed (reap_confirmed backend around answer id v p view).0
  unfolding reap_confirmed
  reap_confirmed-IsConfirmed (sys, some e) id v p view a = a.0
  reap_confirmed-IsConfirmed (sys, none) id v p view a =
      reap_saved-IsConfirmed (save_now backend around (in_state v terminated) sys) id p view
        (save_now-IsConfirmed (in_state v terminated) sys a.0 (λ h. a.1 refl))

  reap_marked-IsConfirmed :
      (marked : System backend × Result Types.Error Runner) (id : String) (marks : Bool)
      (p : Report) (view : Dict Runner)
      → IsConfirmed marked.0
      → IsConfirmed (reap_marked backend around marked id marks p view).0
  unfolding reap_marked
  reap_marked-IsConfirmed (sys, err e) id marks p view c = c
  reap_marked-IsConfirmed (sys, ok v) id marks p view c =
      reap_confirmed-IsConfirmed (terminate_now backend around v sys) id v _ _
        (terminate_now-Answered v sys c)

  reap_one-IsConfirmed :
      (now : Time) (id : String) (v : Runner) (pass : Pass backend around)
      → IsConfirmed pass.0
      → IsConfirmed (reap_one backend around now id v pass).0
  unfolding reap_one
  reap_one-IsConfirmed now id v (sys, p, view) c = elim (Bool-cases (not_due now v)) [
    | inl early ↦ rw early c
    | inr due ↦ rw due (
        reap_marked-IsConfirmed (mark_terminating backend around v sys) id _ p view
          (mark-IsConfirmed v sys c))
  ]

  if_live-IsConfirmed :
      (ctx : Context) (x y : Pass backend around)
      → IsConfirmed x.0
      → IsConfirmed y.0
      → IsConfirmed (if_live ctx x y).0
  if_live-IsConfirmed live x y a b = a
  if_live-IsConfirmed (done e) x y a b = b

  pub reap_expired-IsConfirmed :
      (now : Time) (runners : Dict Runner) (pass : Pass backend around)
      → IsConfirmed pass.0
      → IsConfirmed (reap_expired backend around now runners pass).0
  unfolding reap_expired
  reap_expired-IsConfirmed now [] pass c = c
  reap_expired-IsConfirmed now ((id, v) ∷ rest) (sys, p, view) c =
      if_live-IsConfirmed (around.contexts sys.step) _ _
        (reap_expired-IsConfirmed now rest
          (reap_one backend around now id v (tick backend around sys, p, view))
          (reap_one-IsConfirmed now id v (tick backend around sys, p, view) c))
        c

  reap_listed-IsConfirmed :
      (listed : Result Types.Error (List Runner)) (max : ℕ) (now : Time) (sys : System backend)
      → IsConfirmed sys
      → IsConfirmed (reap_listed backend around listed max now sys).0
  unfolding reap_listed
  reap_listed-IsConfirmed (err e) max now sys c = c
  reap_listed-IsConfirmed (ok listed) max now sys c = reap_expired-IsConfirmed now _ _ c

  -- With a provider whose confirmed terminations are final, neither `ReapExpired` nor
  -- `terminateRunner` records a runner as terminated before the provider has confirmed that its
  -- instance is gone, whichever operations fail: if every recorded termination was confirmed
  -- before the call, every recorded termination is confirmed after it.
  pub reaper_records_truth :
      (max : ℕ) (now : Time) (v : Runner) (sys : System backend)
      → IsConfirmed sys
      → IsConfirmed (reap backend around max now sys).0
        × IsConfirmed (terminate_runner backend around v sys).0
  unfolding reap
  reaper_records_truth max now v sys c = (
    reap_listed-IsConfirmed _ max now (tick backend around sys) c,
    terminate_runner-IsConfirmed v sys c,
  )
