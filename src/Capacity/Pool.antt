-- ===== src/Capacity/Pool.antt =====
-- The types of controller/internal/capacity/capacity.go. Ownership, SelectionMode and Availability
-- are Go strings, and may hold other texts than their constants.
use leo_runners.Base.{ℕ, Bool, String, List}
use leo_runners.Base.Int.{ℤ}
use leo_runners.Base.Time.{Time}
use leo_runners.Base.Dict.{Dict}

abbrev pub customer_owned : String
customer_owned = "customer-owned"

abbrev pub managed : String
managed = "managed"

abbrev pub customer_first : String
customer_first = "customer-first"

abbrev pub managed_first : String
managed_first = "managed-first"

abbrev pub customer_only : String
customer_only = "customer-only"

abbrev pub managed_only : String
managed_only = "managed-only"

abbrev pub available : String
available = "available"

abbrev pub draining : String
draining = "draining"

abbrev pub unavailable : String
unavailable = "unavailable"

pub record Capacity : Type 0 where
  pub max_runners : ℤ
  pub max_cpu : ℤ
  pub max_memory_gb : ℤ
  pub max_gpu : ℤ
  pub used_runners : ℤ
  pub used_cpu : ℤ
  pub used_memory_gb : ℤ
  pub used_gpu : ℤ

pub record Startup : Type 0 where
  pub expected_seconds : ℤ
  pub p95_seconds : ℤ
  pub image_id : String
  pub image_version : String

-- Prices are `float64`, of which the program uses the comparisons and two classifications.
pub record Floats : Type 1 where
  pub Float : Type 0
  -- `x < y`, `x != y`, `x < 0`, `math.IsNaN(x)`, `math.IsInf(x, 0)`
  pub below : Float → Float → Bool
  pub differs : Float → Float → Bool
  pub negative : Float → Bool
  pub is_nan : Float → Bool
  pub is_inf : Float → Bool

pub record Pricing (Float : Type 0) : Type 0 where
  pub currency : String
  pub per_runner_hour : Float
  pub per_cpu_hour : Float
  pub startup_cost : Float
  pub evidence : String
  pub effective_at : Time

pub record Pool (Float : Type 0) : Type 0 where
  pub id : String
  pub ownership : String
  pub provider : String
  pub region : String
  pub security_profile : String
  pub availability : String
  pub labels : List String
  pub capacity : Capacity
  pub pricing : Pricing Float
  pub startup : Startup
  pub metadata : Dict String

pub record Request : Type 0 where
  pub mode : String
  pub ownership : String
  pub provider : String
  pub region : String
  pub security_profile : String
  pub labels : List String
  pub cpu : ℤ
  pub memory_gb : ℤ
  pub gpu : ℤ

pub data Error : Type 0 where
  invalid_pool pool_exists pool_not_found no_capacity bad_reservation stale_replica : Error
  invalid_replica : Error

pub record Reservation : Type 0 where
  pub id : String
  pub pool_id : String
  pub owner : String
  pub fencing_token : ℕ
  pub cpu : ℤ
  pub memory_gb : ℤ
  pub gpu : ℤ

pub record Registry (Float : Type 0) : Type 0 where
  pub pools : Dict (Pool Float)
  pub reservations : Dict Reservation
  pub active_owner : String
  pub active_token : ℕ
