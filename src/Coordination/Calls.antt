-- ===== src/Coordination/Calls.antt =====
-- Controllers that share one memory store: their calls, in the order in which the store's mutex
-- lets them in. Each call goes through the coordinator and brings its clock readings.
use leo_runners.Base.{String, Option, List, [], ◌∷◌}
use leo_runners.Base.Time.{Time, Duration}
use leo_runners.Coordination.Lease.{Lease}
use leo_runners.Base.{Context}
use leo_runners.Coordination.MemoryStore.{MemoryStore, memory_lease_store}
use leo_runners.Coordination.Coordinator

pub data Operation : Type 0 where
  acquires : String → String → Duration → Operation
  renews : Lease → Duration → Operation
  releases : Lease → Operation

pub record Call : Type 0 where
  pub clock : Time × Time
  pub ctx : Option Context
  pub operation : Operation

abbrev pub now : Call → Time
now c = c.clock.0

-- In whose name the operation is called.
abbrev pub owner_of : Operation → String
owner_of (acquires key owner ttl) = owner
owner_of (renews lease ttl) = lease.owner
owner_of (releases lease) = lease.owner

abbrev pub perform : Operation → Time × Time → Option Context → MemoryStore → MemoryStore
perform (acquires key owner ttl) clock ctx s =
    (Coordinator.acquire memory_lease_store clock s ctx key owner ttl).0
perform (renews lease ttl) clock ctx s =
    (Coordinator.renew memory_lease_store clock s ctx lease ttl).0
perform (releases lease) clock ctx s = (Coordinator.release memory_lease_store clock s ctx lease).0

unfoldable pub step : MemoryStore → Call → MemoryStore
step s c = perform c.operation c.clock c.ctx s

unfoldable pub run : MemoryStore → List Call → MemoryStore
run s [] = s
run s (c ∷ cs) = run (step s c) cs
