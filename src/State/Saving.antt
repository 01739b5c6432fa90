-- ===== src/State/Saving.antt =====
-- What is read after the `Save` methods of controller/internal/state/memory.go.
use leo_runners.Base.{
  String, Option, none, some, ◌≡◌, ◌≢◌, refl, false, true, Context, live, ok, arith, ap,
}
use leo_runners.Base.Int.{ℤ, pos, add64, eqb_ℤ→eq, add64_zero_one}
use leo_runners.Base.Time.{Time, is_zero, zero_time}
use leo_runners.Base.Dict.{get}
use leo_runners.State.Types.{Job, Runner, Lease}
use leo_runners.State.Table.{
  Entity, Table, read, read_entry, save, save_over, first_version, next_version, or_time,
}
use leo_runners.State.Memory.{
  MemoryRepository, job_entity, runner_entity, lease_entity, save_job, save_runner, save_lease,
  get_job, get_runner, get_lease,
}
use leo_runners.State.Concurrency.{save_then_found}

module _ (entity : Entity) where
  open entity use {Record, id, created_at, stamp}

  -- The saved record is the given one, but for the revision, which is the next, the update time,
  -- which is now, and the creation time, which is the given one, or the old one's if that is zero.
  abbrev Stamped : Time → Record → Record → ℤ → Table entity → Type 0
  Stamped now v v' expected t =
      (c : Time) × (v' ≡ stamp v (add64 expected (pos 1)) c now)
      × (is_zero (created_at v) ≡ false → c ≡ created_at v)
      × ((old : Record)
          → get (id v) t ≡ some old
          → is_zero (created_at v) ≡ true
          → c ≡ created_at old)

  save_over-Stamped :
      (o : Option Record) (now : Time) (v v' : Record) (expected : ℤ) (t t' : Table entity)
      → get (id v) t ≡ o
      → save_over entity o now v expected t ≡ (t', ok v')
      → Stamped now v v' expected t
  unfolding save_over first_version next_version
  save_over-Stamped none now v v' expected t t' there saved = (
    or_time (created_at v) zero_time,
    ground (arith, eqb_ℤ→eq expected (pos 0), add64_zero_one),
    λ given. ground arith,
    λ old missing zero. absurd (ground arith),
  )
  save_over-Stamped (some old) now v v' expected t t' there saved = (
    or_time (created_at v) (created_at old),
    ground (arith, eqb_ℤ→eq expected (entity.revision old)),
    λ given. ground arith,
    λ other missing zero. ground arith,
  )

  save-Stamped :
      (now : Time) (ctx : Context) (v v' : Record) (expected : ℤ) (t t' : Table entity)
      → save entity now ctx v expected t ≡ (t', ok v')
      → Stamped now v v' expected t
  unfolding save
  save-Stamped now ctx v v' expected t t' saved =
      save_over-Stamped (get (id v) t) now v v' expected t t' refl (ground arith)

  saved_and_read :
      (now : Time) (ctx ctx' : Context) (v v' : Record) (expected : ℤ) (t t' : Table entity)
      (k : String)
      → save entity now ctx v expected t ≡ (t', ok v')
      → (c : Time) × (v' ≡ stamp v (add64 expected (pos 1)) c now)
        × (is_zero (created_at v) ≡ false → c ≡ created_at v)
        × ((old : Record)
            → read entity live (id v) t ≡ ok old
            → is_zero (created_at v) ≡ true
            → c ≡ created_at old)
        × (read entity live (id v) t' ≡ ok v')
        × (k ≢ id v → read entity ctx' k t' ≡ read entity ctx' k t)
  saved_and_read now ctx ctx' v v' expected t t' k saved =
      let (c, same, given, kept) = save-Stamped now ctx v v' expected t t' saved in
      let (found, next, others) = save_then_found entity now ctx ctx' v v' expected t t' k saved in
      (c, same, given, λ old h. kept old (read_entry entity live (id v) old t h), found, others)

-- A job, runner or lease that is saved is read back as it was given, but for what the repository
-- stamps: the revision is the one after the expected revision, the update time is the time of the
-- call, and the creation time is the given one, or the old record's if that is the zero time. Reads
-- of other identifiers find what they found before.
pub save_then_read :
    (now : Time) (ctx ctx' : Context) (k : String) (expected : ℤ) (r r' : MemoryRepository)
    → ((v v' : Job)
        → save_job now ctx v expected r ≡ (r', ok v')
        → (c : Time) × (v'
            ≡ record v { revision = add64 expected (pos 1); created_at = c; updated_at = now })
          × (is_zero v.created_at ≡ false → c ≡ v.created_at)
          × ((old : Job)
              → get_job live v.id r ≡ ok old
              → is_zero v.created_at ≡ true
              → c ≡ old.created_at)
          × (get_job live v.id r' ≡ ok v')
          × (k ≢ v.id → get_job ctx' k r' ≡ get_job ctx' k r))
      × ((v v' : Runner)
          → save_runner now ctx v expected r ≡ (r', ok v')
          → (c : Time) × (v'
              ≡ record v { revision = add64 expected (pos 1); created_at = c; updated_at = now })
            × (is_zero v.created_at ≡ false → c ≡ v.created_at)
            × ((old : Runner)
                → get_runner live v.id r ≡ ok old
                → is_zero v.created_at ≡ true
                → c ≡ old.created_at)
            × (get_runner live v.id r' ≡ ok v')
            × (k ≢ v.id → get_runner ctx' k r' ≡ get_runner ctx' k r))
      × ((v v' : Lease)
          → save_lease now ctx v expected r ≡ (r', ok v')
          → (c : Time) × (v'
              ≡ record v { revision = add64 expected (pos 1); created_at = c; updated_at = now })
            × (is_zero v.created_at ≡ false → c ≡ v.created_at)
            × ((old : Lease)
                → get_lease live v.id r ≡ ok old
                → is_zero v.created_at ≡ true
                → c ≡ old.created_at)
            × (get_lease live v.id r' ≡ ok v')
            × (k ≢ v.id → get_lease ctx' k r' ≡ get_lease ctx' k r))
unfolding save_job save_runner save_lease get_job get_runner get_lease
save_then_read now ctx ctx' k expected r r' = (
  λ v v' h.
      saved_and_read job_entity now ctx ctx' v v' expected r.jobs r'.jobs k
        (ap (λ x. (x.0.jobs, x.1)) h),
  λ v v' h.
      saved_and_read runner_entity now ctx ctx' v v' expected r.runners r'.runners k
        (ap (λ x. (x.0.runners, x.1)) h),
  λ v v' h.
      saved_and_read lease_entity now ctx ctx' v v' expected r.leases r'.leases k
        (ap (λ x. (x.0.leases, x.1)) h),
)
