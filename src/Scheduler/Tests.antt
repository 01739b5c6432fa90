-- ===== src/Scheduler/Tests.antt =====
-- A schedule on the sample registry with the fake provider.
use leo_runners.Base.{◌≡◌, refl, some, some_injective, subst, sym, ◌∙◌, arith}
use leo_runners.Base.Int.{pos, add64}
use leo_runners.Base.Sort.{sort, insert}
use leo_runners.Capacity.Registry.{fits}
use leo_runners.Capacity.Selection
use leo_runners.Capacity.Selection.{first_owned, matches, has_labels, ownership_order, less}
use leo_runners.Capacity.Validity.{Fits64}
use leo_runners.Capacity.Samples.{whole, usage_of, pool_of, before, before-Reachable}
use leo_runners.Capacity.Histories.{Reachable-IsSound}
use leo_runners.Policy.Selecting.{customer_first}
use leo_runners.Scheduler.Scheduling.{schedule, request_for}
use leo_runners.Scheduler.Accounts.{Balanced, HasRoom, schedule-Balanced}
use leo_runners.Scheduler.Samples.{one_fake, job, spec, settings, site, moment}

select_p :
    Selection.select whole (request_for customer_first spec) before
    ≡ some (pool_of "p" "managed" (usage_of 1 4))
unfolding Selection.select first_owned matches has_labels fits ownership_order less sort insert
    add64
select_p = refl

room : HasRoom whole one_fake settings spec before
room p chosen =
    subst (λ x. Fits64 x.capacity (pos 4) (pos 0) (pos 0)) (some_injective (sym select_p ∙ chosen))
      (record { runners = omega arith; cpu = omega arith; memory = omega arith; gpu = omega arith })

schedule-Balanced_example :
    Balanced whole one_fake before site.repository
      (schedule whole one_fake settings moment job spec site)
schedule-Balanced_example =
    schedule-Balanced whole one_fake settings moment job spec site
      (Reachable-IsSound whole before before-Reachable) room
