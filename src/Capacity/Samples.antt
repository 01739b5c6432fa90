-- ===== src/Capacity/Samples.antt =====
-- Pools, registries and requests for the runs. Prices are whole numbers here.
use leo_runners.Base.{ℕ, String, [], ◌∷◌, false, ltb, not, ◌==◌}
use leo_runners.Base.Int.{pos}
use leo_runners.Coordination.Lease.{Lease}
use leo_runners.Coordination.MemoryStore.{MemoryStore, new_memory_store}
use leo_runners.Capacity.Pool.{
  Capacity, Pool, Floats, Registry, Request, managed, customer_first, available,
}
use leo_runners.Capacity.Replica.{Replica, Demand}
use leo_runners.Base.{arith}
use leo_runners.Base.Text.{is_blank, trim_space}
use leo_runners.Base.Dict.{get, put}
use leo_runners.Capacity.Validation.{
  validate, any_negative, values_of, over_limit, bad_startup, bad_pricing, bad_labels,
}
use leo_runners.Capacity.Registry.{register}
use leo_runners.Capacity.Replica.{new_replica}
use leo_runners.Capacity.Validity.{Is64}
use leo_runners.Capacity.Histories.{Reachable, starts, steps, registers, claims}

abbrev pub whole : Floats
whole = record {
  Float = ℕ;
  below = ltb;
  differs = λ a b. not (a == b);
  negative = λ a. false;
  is_nan = λ a. false;
  is_inf = λ a. false;
}

-- At most 4 runners and 16 CPUs, of which some are in use.
abbrev pub usage_of : ℕ → ℕ → Capacity
usage_of runners cpu = record {
  max_runners = pos 4;
  max_cpu = pos 16;
  max_memory_gb = pos 0;
  max_gpu = pos 0;
  used_runners = pos runners;
  used_cpu = pos cpu;
  used_memory_gb = pos 0;
  used_gpu = pos 0;
}

abbrev pub pool_of : String → String → Capacity → Pool ℕ
pool_of id ownership c = record {
  id = id;
  ownership = ownership;
  provider = "aws";
  region = "eu";
  security_profile = "base";
  availability = available;
  labels = "linux" ∷ [];
  capacity = c;
  pricing = record {
    currency = "";
    per_runner_hour = 3;
    per_cpu_hour = 1;
    startup_cost = 0;
    evidence = "";
    effective_at = pos 0;
  };
  startup = record {
    expected_seconds = pos 30;
    p95_seconds = pos 60;
    image_id = "";
    image_version = "";
  };
  metadata = [];
}

abbrev pub registry_of : Capacity → Registry ℕ
registry_of c = record {
  pools = ("p", pool_of "p" managed c) ∷ [];
  reservations = [];
  active_owner = "a";
  active_token = 2;
}

abbrev pub before : Registry ℕ
before = registry_of (usage_of 1 4)

abbrev pub a_2 : Replica
a_2 = record { owner = "a"; token = 2 }

abbrev pub demand_4 : Demand
demand_4 = record { id = "job-1"; pool_id = "p"; cpu = pos 4; memory_gb = pos 0; gpu = pos 0 }

abbrev pub held : Registry ℕ
held = record {
  pools = ("p", pool_of "p" managed (usage_of 2 8)) ∷ [];
  reservations =
      (
        "job-1",
        record {
          id = "job-1";
          pool_id = "p";
          owner = "a";
          fencing_token = 2;
          cpu = pos 4;
          memory_gb = pos 0;
          gpu = pos 0;
        },
      )
      ∷ [];
  active_owner = "a";
  active_token = 2;
}

abbrev pub request : Request
request = record {
  mode = customer_first;
  ownership = "";
  provider = "";
  region = "";
  security_profile = "";
  labels = "linux" ∷ [];
  cpu = pos 4;
  memory_gb = pos 0;
  gpu = pos 0;
}

abbrev pub leader_lease : Lease
leader_lease = record { key = "leader"; owner = "a"; token = 2; expires_at = pos 30 }

abbrev pub leases : MemoryStore
leases = record new_memory_store {
  items = ("leader", record { lease = leader_lease; next = 2 }) ∷ [];
}

abbrev pub next_lease : Lease
next_lease = record { key = "leader"; owner = "b"; token = 1; expires_at = pos 50 }

pub usage_64 : Is64 (usage_of 1 4)
usage_64 = record {
  runners = omega arith;
  cpu = omega arith;
  memory = omega arith;
  gpu = omega arith;
}

-- A pool is registered, and "a" claims the registry with token 2.
pub before-Reachable : Reachable whole before
unfolding register validate is_blank trim_space any_negative values_of over_limit bad_startup
    bad_pricing bad_labels get put new_replica
before-Reachable =
    steps _ (claims "a" 2)
      (steps _ (registers (pool_of "p" managed (usage_of 1 4))) starts usage_64) tt
