-- ===== src/Lifecycle/FakeLaws.antt =====
-- What `FakeProvider` promises of a confirmed termination, and what it stores of a specification.
use leo_runners.Base.{
  ◌≡◌, refl, ap, ◌≤◌, ◌+◌, ◌∷◌, length, keep, String, ℕ, Option, none, some, Bool, true, false,
  ◌||◌, [], if◌then◌else◌, ok, Context, live, done, arith, eq_iff,
}
use leo_runners.Base.Int.{pos, ltb_ℤ, ◌≤ℤ◌, incr_u64}
use leo_runners.Base.Time.{Time}
use leo_runners.Base.Dict.{Dict, get, put, values, get-put, get-put_self}
use leo_runners.Lifecycle.Provider.{
  RunnerInstance, RunnerSpec, Confirms, SaysGone, instance_not_found, terminated, provisioning,
}
use leo_runners.Lifecycle.Fake.{
  Fake, status_is, status, terminate, terminate_over, failure_locked, fake_provider, provision,
  provisioned, active_count, is_active,
}

-- No instance of the identifier, or a terminated one.
abbrev pub gone : Option RunnerInstance → Bool
gone none = true
gone (some i) = status_is i.status terminated

terminate_over-gone :
    (o : Option RunnerInstance) (f : Fake) (i : RunnerInstance)
    → get i.id f.instances ≡ o
    → (terminate_over o f i).1 ≡ none
    → gone (get i.id (terminate_over o f i).0.instances) ≡ true
unfolding terminate_over failure_locked
terminate_over-gone none f i here h = ground arith
terminate_over-gone (some c) f i here h =
    ground
      (arith, get-put i.id i.id (record c { status = terminated }) f.instances, eq_iff i.id i.id)

terminate_over-keeps :
    (o : Option RunnerInstance) (f : Fake) (i : RunnerInstance) (k : String)
    → gone (get k f.instances) ≡ true
    → gone (get k (terminate_over o f i).0.instances) ≡ true
unfolding terminate_over failure_locked
terminate_over-keeps none f i k h = h
terminate_over-keeps (some c) f i k h =
    ground (arith, get-put i.id k (record c { status = terminated }) f.instances)

pub terminate-gone :
    (f : Fake) (ctx : Context) (i : RunnerInstance)
    → (terminate f ctx i).1 ≡ none
    → gone (get i.id (terminate f ctx i).0.instances) ≡ true
unfolding terminate
terminate-gone f live i h = terminate_over-gone (get i.id f.instances) f i refl h
terminate-gone f (done e) i h = absurd (ground arith)

pub terminate-keeps :
    (f : Fake) (ctx : Context) (i j : RunnerInstance)
    → gone (get j.id f.instances) ≡ true
    → gone (get j.id (terminate f ctx i).0.instances) ≡ true
unfolding terminate
terminate-keeps f live i j h = terminate_over-keeps (get i.id f.instances) f i j.id h
terminate-keeps f (done e) i j h = h

-- A plan that makes the provider answer that it does not know an instance it may know.
abbrev pub denies : Fake → Bool
denies f = elim f.failures.error [ some instance_not_found ↦ true | _ ↦ false ]

abbrev pub counts_as_gone : Fake → RunnerInstance → Bool
counts_as_gone f i = gone (get i.id f.instances) || denies f

status_over-gone :
    (o : Option RunnerInstance) (f : Fake) (i : RunnerInstance)
    → get i.id f.instances ≡ o
    → SaysGone (status f live i).1
    → counts_as_gone (status f live i).0 i ≡ true
unfolding status failure_locked
status_over-gone none f i here h = ground arith
status_over-gone (some c) f i here h = ground arith

pub status-gone :
    (f : Fake) (ctx : Context) (i : RunnerInstance)
    → SaysGone (status f ctx i).1
    → counts_as_gone (status f ctx i).0 i ≡ true
unfolding status
status-gone f live i h = status_over-gone (get i.id f.instances) f i refl h
status-gone f (done e) i h = absurd h

pub status-keeps :
    (f : Fake) (ctx : Context) (i j : RunnerInstance)
    → counts_as_gone f j ≡ true
    → counts_as_gone (status f ctx i).0 j ≡ true
unfolding status failure_locked
status-keeps f live i j h = ground arith
status-keeps f (done e) i j h = h

pub counts-terminate :
    (f : Fake) (ctx : Context) (i : RunnerInstance)
    → (terminate f ctx i).1 ≡ none
    → counts_as_gone (terminate f ctx i).0 i ≡ true
counts-terminate f ctx i h = ground (arith, terminate-gone f ctx i h)

same_plan :
    (o : Option RunnerInstance) (f : Fake) (i : RunnerInstance)
    → denies (terminate_over o f i).0 ≡ denies f
unfolding terminate_over failure_locked
same_plan none f i = refl
same_plan (some c) f i = ground arith

pub counts-keeps :
    (f : Fake) (ctx : Context) (i j : RunnerInstance)
    → counts_as_gone f j ≡ true
    → counts_as_gone (terminate f ctx i).0 j ≡ true
unfolding terminate
counts-keeps f live i j h = ground (
  arith,
  same_plan (get i.id f.instances) f i,
  terminate_over-keeps (get i.id f.instances) f i j.id,
)
counts-keeps f (done e) i j h = h

-- The fake provider's confirmed terminations are final, and it reports an instance as gone only
-- when it is, unless its plan of failures makes it deny instances.
abbrev pub fake_confirms : Confirms fake_provider
fake_confirms = record {
  Gone = λ f i. counts_as_gone f i ≡ true;
  terminate-Gone = counts-terminate;
  keeps-Gone = counts-keeps;
  status-Gone = status-gone;
  keeps_over_status = status-keeps;
}

pub provision-Provisioned :
    (name : ℕ → String) (now : Time) (ctx : Context) (spec : RunnerSpec) (f f' : Fake)
    (i : RunnerInstance)
    → provision name now ctx spec f ≡ (f', ok i)
    → (f'.instances ≡ put i.id i f.instances)
      × (i ≡ provisioned name now spec (incr_u64 f.sequence))
unfolding provision failure_locked
provision-Provisioned name now ctx spec f f' i h = (ground arith, ground arith)

-- An instance that `Provision` gives is stored as it is given, in the state provisioning and with
-- the expiry that was asked for, but without any of the metadata that were asked for.
pub provision_loses_metadata :
    (name : ℕ → String) (now : Time) (ctx : Context) (spec : RunnerSpec) (f f' : Fake)
    (i : RunnerInstance)
    → provision name now ctx spec f ≡ (f', ok i)
    → (get i.id f'.instances ≡ some i)
      × (i.status ≡ provisioning)
      × (i.expires_at ≡ spec.expires_at)
      × (i.spec.metadata ≡ [])
provision_loses_metadata name now ctx spec f f' i h =
    let (stored, new) = provision-Provisioned name now ctx spec f f' i h in
    (
      rw stored (get-put_self i.id i f.instances),
      ap (λ x. x.status) new,
      ap (λ x. x.expires_at) new,
      ap (λ x. x.spec.metadata) new,
    )

-- A write adds at most one instance that passes a test, and none if the new one fails it.
count-put :
    (test : RunnerInstance → Bool) (k : String) (v : RunnerInstance) (m : Dict RunnerInstance)
    → length (keep test (values (put k v m)))
      ≤ length (keep test (values m)) + (if test v then 1 else 0)
unfolding put
count-put test k v [] = ground arith
count-put test k v ((j, w) ∷ m) = ground (arith, count-put test k v m)

-- With a positive capacity, no more instances are active than it allows.
abbrev pub IsBounded : Fake → Type 0
IsBounded f = ltb_ℤ (pos 0) f.capacity ≡ true → pos (active_count f) ≤ℤ f.capacity

provision-IsBounded :
    (name : ℕ → String) (now : Time) (ctx : Context) (spec : RunnerSpec) (f : Fake)
    → IsBounded f
    → IsBounded (provision name now ctx spec f).0
unfolding provision failure_locked
provision-IsBounded name now ctx spec f b positive =
    let n = incr_u64 f.sequence in
    ground (arith, b, count-put is_active (name n) (provisioned name now spec n) f.instances)

terminate_over-IsBounded :
    (o : Option RunnerInstance) (f : Fake) (i : RunnerInstance)
    → IsBounded f
    → IsBounded (terminate_over o f i).0
unfolding terminate_over failure_locked
terminate_over-IsBounded none f i b = b
terminate_over-IsBounded (some c) f i b = λ positive.
    ground (arith, b, count-put is_active i.id (record c { status = terminated }) f.instances)

-- Neither `Provision` nor `Terminate` lets more instances be active than a positive capacity
-- allows, on any branch.
pub capacity_is_kept :
    (name : ℕ → String) (now : Time) (ctx : Context) (spec : RunnerSpec) (i : RunnerInstance)
    (f : Fake)
    → IsBounded f
    → IsBounded (provision name now ctx spec f).0 × IsBounded (terminate f ctx i).0
unfolding terminate
capacity_is_kept name now live spec i f b = (
  provision-IsBounded name now live spec f b,
  terminate_over-IsBounded (get i.id f.instances) f i b,
)
capacity_is_kept name now (done e) spec i f b = (provision-IsBounded name now (done e) spec f b, b)
