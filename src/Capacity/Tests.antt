-- ===== src/Capacity/Tests.antt =====
-- Runs of the capacity registry at concrete inputs.
use leo_runners.Base.{
  ◌^◌, ◌-◌, ◌≡◌, ◌≢◌, refl, String, [], ◌∷◌, none, some, ok, live, arith, eq_iff,
}
use leo_runners.Base.Int.{pos, add64}
use leo_runners.Base.Time.{add}
use leo_runners.Base.Text.{is_blank, trim_space}
use leo_runners.Base.Dict.{get, put, remove}
use leo_runners.Base.Sort.{sort, insert}
use leo_runners.Coordination.MemoryStore.{acquire, release, grant, granted}
use leo_runners.Capacity.Pool.{managed, no_capacity, stale_replica}
use leo_runners.Capacity.Validation.{
  validate, any_negative, values_of, over_limit, bad_startup, bad_pricing, bad_labels, IsWithin,
}
use leo_runners.Capacity.Registry.{reserve, reserve_from, fits, charge, with_capacity, with_pool}
use leo_runners.Capacity.Replica.{
  Replica, new_replica, fenced, reserve_fenced, reserve_new, reserve_in, bad_demand, release_fenced,
}
use leo_runners.Capacity.Selection.{select, first_owned, matches, has_labels, ownership_order, less}
use leo_runners.Capacity.Validity.{Fits64, validate-IsWithin}
use leo_runners.Capacity.Histories.{Reachable, steps, Reachable-IsSound, claims, reserves_fenced}
use leo_runners.Capacity.Soundness.{IsSound}
use leo_runners.Capacity.Retraction.{reserve_then_release_fenced}
use leo_runners.Capacity.Fences.{repeated_reserve, errors_write_nothing}
use leo_runners.Capacity.Takeover.{takeover_is_final, after_calls}
use leo_runners.Capacity.Overflow.{oversized_is_granted}
use leo_runners.Capacity.Choice.{selected_is_granted}
use leo_runners.Capacity.Leadership.{next_leader_is_stale}
use leo_runners.Capacity.Samples.{
  usage_64, before-Reachable, whole, usage_of, pool_of, registry_of, before, a_2, demand_4, held,
  request, leader_lease, leases, next_lease,
}

reserve_4 : reserve "p" (pos 4) (pos 0) (pos 0) before ≡ (registry_of (usage_of 2 8), none)
unfolding reserve reserve_from fits charge get put add64
reserve_4 = refl

before_valid : validate whole (pool_of "p" managed (usage_of 1 4)) ≡ none
unfolding validate is_blank any_negative values_of over_limit bad_startup bad_pricing bad_labels
    trim_space
before_valid = refl

before-IsWithin : IsWithin (usage_of 1 4)
before-IsWithin = validate-IsWithin whole (pool_of "p" managed (usage_of 1 4)) before_valid

sums_4 : Fits64 (usage_of 1 4) (pos 4) (pos 0) (pos 0)
sums_4 = record {
  runners = omega arith;
  cpu = omega arith;
  memory = omega arith;
  gpu = omega arith;
}

reserve_demand : reserve_fenced a_2 demand_4 before ≡ (held, none)
unfolding reserve_fenced reserve_new reserve_in fenced fits charge get put add64 bad_demand is_blank
reserve_demand = refl

reserve_then_release_fenced_example : release_fenced a_2 "job-1" held ≡ (before, none)
reserve_then_release_fenced_example =
    reserve_then_release_fenced a_2 demand_4 (pool_of "p" managed (usage_of 1 4)) before held
      (unfold get in refl) (unfold get in refl) before-IsWithin sums_4 reserve_demand

repeated_reserve_example : reserve_fenced a_2 demand_4 held ≡ (held, none)
repeated_reserve_example = repeated_reserve a_2 demand_4 before held reserve_demand

held-Reachable : Reachable whole held
unfolding reserve_fenced reserve_new reserve_in fenced fits charge get put add64 bad_demand is_blank
held-Reachable = steps _ (reserves_fenced a_2 demand_4) before-Reachable sums_4

Reachable-IsSound_example : IsSound whole held
Reachable-IsSound_example = Reachable-IsSound whole held held-Reachable

errors_write_nothing_example : (reserve "p" (pos 20) (pos 0) (pos 0) before).0 ≡ before
unfolding add64
errors_write_nothing_example =
    (errors_write_nothing whole (pool_of "p" managed (usage_of 1 4)) "p" (pos 20) (pos 0) (pos 0)
        a_2 demand_4 no_capacity before).3
      (unfold reserve in unfold fits in unfold get in refl)

a_not_empty : ◌≢◌ {A = String} "a" ""
a_not_empty = ground (arith, eq_iff "a" "")

b_not_empty : ◌≢◌ {A = String} "b" ""
b_not_empty = ground (arith, eq_iff "b" "")

-- "b" takes over with token 3, and "c" with token 4; "a" stays out.
takeover_is_final_example :
    reserve_fenced a_2 demand_4 (
      after_calls whole
        (claims "c" 4 ∷ [])
        (record before { active_owner = "b"; active_token = 3 }))
    ≡ (
      after_calls whole
          (claims "c" 4 ∷ [])
          (record before { active_owner = "b"; active_token = 3 }),
      some stale_replica,
    )
takeover_is_final_example =
    (takeover_is_final whole "b" 3 (record { owner = "b"; token = 3 }) a_2 demand_4 "job-1" before
      (record before { active_owner = "b"; active_token = 3 }) (claims "c" 4 ∷ [])
      (unfold new_replica in unfold is_blank in refl) (omega arith) (λ h. ground arith) a_not_empty
      (unfold bad_demand in unfold is_blank in refl) (unfold is_blank in refl)).0

oversized_is_granted_example : (reserve "p" (pos (2 ^ 63 - 1)) (pos 0) (pos 0) before).1 ≡ none
oversized_is_granted_example =
    (oversized_is_granted "p" (pool_of "p" managed (usage_of 1 4)) (pos (2 ^ 63 - 1)) before
      (unfold get in refl) refl before-IsWithin usage_64 (omega arith, omega arith) (omega arith)
      refl (omega arith)).0

select_p : select whole request before ≡ some (pool_of "p" managed (usage_of 1 4))
unfolding select first_owned matches has_labels fits ownership_order less sort insert add64
select_p = refl

selected_is_granted_example : reserve "p" (pos 4) (pos 0) (pos 0) before ≡ (
  with_pool before "p" (
      with_capacity
        (pool_of "p" managed (usage_of 1 4))
        (charge (usage_of 1 4) (pos 4) (pos 0) (pos 0))),
  none,
)
selected_is_granted_example =
    selected_is_granted whole request (pool_of "p" managed (usage_of 1 4)) before
      (Reachable-IsSound whole before before-Reachable) select_p

next_leader :
    (acquire
      (pos 40)
      (release leases (some live) leader_lease).0
      (some live)
      "leader"
      "b"
      (pos 10)).1
    ≡ ok next_lease
unfolding acquire release grant granted get put remove add
next_leader = refl

next_leader_is_stale_example :
    (v : Replica) × (new_replica "b" 1 before ≡ (before, ok v))
    × (reserve_fenced v demand_4 before ≡ (before, some stale_replica))
next_leader_is_stale_example =
    next_leader_is_stale leases (record { lease = leader_lease; next = 2 }) leader_lease next_lease
      (pos 40) "b" (pos 10) demand_4 before (unfold get in refl) refl refl next_leader refl
      (omega arith) (unfold is_blank in refl) b_not_empty
      (unfold bad_demand in unfold is_blank in refl)
