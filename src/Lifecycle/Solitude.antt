-- ===== src/Lifecycle/Solitude.antt =====
-- One instance that is asked for, waited for and terminated, at the `FakeProvider` of
-- controller/internal/providers/provider.go.
use leo_runners.Base.{
  ◌≡◌, ◌≢◌, refl, sym, ap, ◌∙◌, String, ℕ, Option, none, some, Option-cases, ◌||◌, str_eq, true,
  false, Bool-cases, inl, inr, ◌⊎◌, ok, err, Context, live, done, arith, some_injective, eq_iff,
}
use leo_runners.Base.Time.{Time}
use leo_runners.Base.Dict.{get, put, get-put, get-put_self, get-put_ne}
use leo_runners.Lifecycle.Provider.{
  ProviderError, RunnerInstance, RunnerSpec, failed, ready, terminated, terminating,
}
use leo_runners.Lifecycle.Fake.{
  Fake, is_active, provision, wait_ready_begin, wait_ready_end, terminate, failure_locked,
  set_status_locked, or_zero, status_is,
}
use leo_runners.Lifecycle.FakeLaws.{provision-Provisioned}

-- No instance is active.
abbrev pub Idle : Fake → Type 0
Idle f = (k : String) (v : RunnerInstance) → get k f.instances ≡ some v → is_active v ≡ false

-- One instance is active.
pub record Alone (k : String) (f : Fake) : Type 0 where
  pub instance_of_key : RunnerInstance
  pub there : get k f.instances ≡ some instance_of_key
  pub active : is_active instance_of_key ≡ true
  pub others :
      (j : String) (v : RunnerInstance) → j ≢ k → get j f.instances ≡ some v → is_active v ≡ false

-- What becomes of the instances when the instance of a key may be replaced by an active one.
Stays : String → Fake → Fake → Type 0
Stays k f f' =
    (f'.instances ≡ f.instances)
    ⊎ ((v : RunnerInstance) × (is_active v ≡ true) × (f'.instances ≡ put k v f.instances))

put-Alone :
    (k : String) (v : RunnerInstance) (f f' : Fake)
    → is_active v ≡ true
    → ((j : String) (u : RunnerInstance) → j ≢ k → get j f.instances ≡ some u → is_active u ≡ false)
    → f'.instances ≡ put k v f.instances
    → Alone k f'
put-Alone k v f f' runs others written = record {
  instance_of_key = v;
  there = ap (get k) written ∙ get-put_self k v f.instances;
  active = runs;
  others = λ j u other there.
      others j u other (
        sym (get-put_ne k j v f.instances (λ p. other (sym p))) ∙ ap (get j) (sym written) ∙ there);
}

Stays-Alone : (k : String) (f f' : Fake) → Stays k f f' → Alone k f → Alone k f'
unfolding Stays
Stays-Alone k f f' (inl same) alone = record {
  instance_of_key = alone.instance_of_key;
  there = ap (get k) same ∙ alone.there;
  active = alone.active;
  others = λ j v other there. alone.others j v other (ap (get j) (sym same) ∙ there);
}
Stays-Alone k f f' (inr (v, runs, written)) alone = put-Alone k v f f' runs alone.others written

provision-refused :
    (name : ℕ → String) (now : Time) (ctx : Context) (spec : RunnerSpec) (f : Fake)
    (e : ProviderError)
    → (provision name now ctx spec f).1 ≡ err e
    → (provision name now ctx spec f).0.instances ≡ f.instances
unfolding provision failure_locked
provision-refused name now ctx spec f e refused = ground arith

pub provision-Idle :
    (name : ℕ → String) (now : Time) (ctx : Context) (spec : RunnerSpec) (f : Fake)
    (e : ProviderError)
    → Idle f
    → (provision name now ctx spec f).1 ≡ err e
    → Idle (provision name now ctx spec f).0
provision-Idle name now ctx spec f e idle refused k v there =
    idle k v (ap (get k) (sym (provision-refused name now ctx spec f e refused)) ∙ there)

pub provision-Alone :
    (name : ℕ → String) (now : Time) (ctx : Context) (spec : RunnerSpec) (f : Fake)
    (i : RunnerInstance)
    → Idle f
    → (provision name now ctx spec f).1 ≡ ok i
    → Alone i.id (provision name now ctx spec f).0
provision-Alone name now ctx spec f i idle granted =
    let f' = (provision name now ctx spec f).0 in
    let (written, new) =
      provision-Provisioned name now ctx spec f f' i (ap (λ y. (f', y)) granted) in
    put-Alone i.id i f f' (ap is_active new) (λ j u other there. idle j u there) written

wait_ready_begin-Stays :
    (ctx : Context) (i : RunnerInstance) (f : Fake) → Stays i.id f (wait_ready_begin ctx i f).0
unfolding Stays wait_ready_begin set_status_locked
wait_ready_begin-Stays (done e) i f = inl refl
wait_ready_begin-Stays live i f =
    elim (Option-cases (failure_locked f.failures.error f.failures.wait_ready).0) [
      | inl calm ↦ inl (ground arith)
      | inr (e, failing) ↦
          inr (record (or_zero (get i.id f.instances)) { status = failed }, refl, ground arith)
    ]

wait_ready_end-Stays :
    (ctx : Context) (i current : RunnerInstance) (f : Fake)
    → get i.id f.instances ≡ some current
    → Stays i.id f (wait_ready_end ctx i f).0
unfolding Stays wait_ready_end
wait_ready_end-Stays (done e) i current f there = inl refl
wait_ready_end-Stays live i current f there =
    elim (Bool-cases
      (status_is current.status terminated || status_is current.status terminating)) [
        | inl ended ↦ inl (ground arith)
        | inr going ↦ inr (record current { status = ready }, refl, ground arith)
      ]

wait_ready_end-Alone :
    (ctx : Context) (i : RunnerInstance) (f : Fake)
    → Alone i.id f
    → Alone i.id (wait_ready_end ctx i f).0
wait_ready_end-Alone ctx i f alone =
    Stays-Alone i.id f (wait_ready_end ctx i f).0
      (wait_ready_end-Stays ctx i alone.instance_of_key f alone.there) alone

-- `WaitReady` up to its answer, when nothing else is called while it waits.
unfoldable pub waited :
    Fake × Option ProviderError → Context → RunnerInstance → Fake × Option ProviderError
waited (f, some e) ctx i = (f, some e)
waited (f, none) ctx i = wait_ready_end ctx i f

waited-Alone :
    (answer : Fake × Option ProviderError) (ctx : Context) (i : RunnerInstance)
    → Alone i.id answer.0
    → Alone i.id (waited answer ctx i).0
unfolding waited
waited-Alone (f, some e) ctx i alone = alone
waited-Alone (f, none) ctx i alone = wait_ready_end-Alone ctx i f alone

pub wait_ready-Alone :
    (ctx : Context) (i : RunnerInstance) (f : Fake)
    → Alone i.id f
    → Alone i.id (waited (wait_ready_begin ctx i f) ctx i).0
wait_ready-Alone ctx i f alone =
    waited-Alone (wait_ready_begin ctx i f) ctx i
      (Stays-Alone i.id f (wait_ready_begin ctx i f).0 (wait_ready_begin-Stays ctx i f) alone)

terminate-put :
    (ctx : Context) (i current : RunnerInstance) (f : Fake)
    → get i.id f.instances ≡ some current
    → is_active current ≡ true
    → (terminate f ctx i).1 ≡ none
    → (terminate f ctx i).0.instances
      ≡ put i.id (record current { status = terminated }) f.instances
unfolding terminate failure_locked
terminate-put (done e) i current f there active confirmed = absurd (ground arith)
terminate-put live i current f there active confirmed = ground arith

pub terminate-Idle :
    (ctx : Context) (i : RunnerInstance) (f : Fake)
    → Alone i.id f
    → (terminate f ctx i).1 ≡ none
    → Idle (terminate f ctx i).0
terminate-Idle ctx i f alone confirmed k v there =
    let current = alone.instance_of_key in
    let ended : RunnerInstance = record current { status = terminated } in
    let written = terminate-put ctx i current f alone.there alone.active confirmed in
    let found = ap (get k) (sym written) ∙ there in
    elim (Bool-cases (str_eq i.id k)) [
      | inl same ↦
          let here = get-put i.id k ended f.instances in
          let it : some v ≡ some ended = ground arith in ap is_active (some_injective it)
      | inr other ↦
          alone.others k v (λ p. absurd (ground (arith, eq_iff i.id k)))
            (sym (get-put_ne i.id k ended f.instances (λ p. absurd (ground (arith, eq_iff i.id k))))
              ∙ found)
    ]
