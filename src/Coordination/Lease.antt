-- ===== src/Coordination/Lease.antt =====
-- The types of controller/internal/coordination/coordination.go, and the store's interface.
use leo_runners.Base.{ℕ, String, Option, none, some, Result, Context, live, done, ContextError}
use leo_runners.Base.Time.{Time, Duration}

pub data Error : Type 0 where
  invalid_owner invalid_key invalid_ttl lease_held not_found not_owner stale_token : Error
  context : ContextError → Error

-- Owner and key are Go strings under the names OwnerID and LeaseKey.
pub record Lease : Type 0 where
  pub key : String
  pub owner : String
  pub token : ℕ
  pub expires_at : Time

-- `contextErr` and `validateContext`: a nil context counts as canceled.
unfoldable pub context_err : Option Context → Option Error
context_err none = some (context ContextError.canceled)
context_err (some live) = none
context_err (some (done e)) = some (context e)

-- The persistence boundary. A call sees the store and what it reads of the world outside, such
-- as its clock, and gives back the store and an answer; it is atomic.
pub record LeaseStore : Type 1 where
  pub Store : Type 0
  pub World : Type 0
  pub acquire :
      World → Store → Option Context → String → String → Duration → Store × Result Error Lease
  pub renew : World → Store → Option Context → Lease → Duration → Store × Result Error Lease
  pub release : World → Store → Option Context → Lease → Store × Result Error (Unit {0})
