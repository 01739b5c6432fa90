-- ===== src/Coordination/Coordinator.antt =====
-- controller/internal/coordination/coordination.go: the coordinator checks its inputs and calls
-- the store.
use leo_runners.Base.{arith, String, Option, none, some, Result, err, Context, if◌then◌else◌, ◌==◌}
use leo_runners.Base.Int.{leb_ℤ, pos}
use leo_runners.Base.Time.{Duration}
use leo_runners.Base.Text.{is_blank}
use leo_runners.Coordination.Lease.{
  Lease, LeaseStore, Error, invalid_owner, invalid_key, invalid_ttl, stale_token, context_err,
}

unfoldable pub validate : String → String → Duration → Option Error
validate key owner ttl =
    if is_blank key
    then some invalid_key
    else if is_blank owner
    then some invalid_owner
    else if leb_ℤ ttl (pos 0)
    then some invalid_ttl
    else none

module _ (store : LeaseStore) where
  open store use {Store, World}

  unfoldable pub acquire :
      World → Store → Option Context → String → String → Duration → Store × Result Error Lease
  unfolding context_err validate
  acquire w s ctx key owner ttl = elim (context_err ctx) [
    | some e ↦ (s, err e)
    | none ↦ elim (validate key owner ttl) [
      | some e ↦ (s, err e)
      | none ↦ store.acquire w s ctx key owner ttl
    ]
  ]

  unfoldable pub renew :
      World → Store → Option Context → Lease → Duration → Store × Result Error Lease
  unfolding context_err validate
  renew w s ctx lease ttl = elim (context_err ctx) [
    | some e ↦ (s, err e)
    | none ↦ elim (validate lease.key lease.owner ttl) [
      | some e ↦ (s, err e)
      | none ↦ if lease.token == 0 then (s, err stale_token) else store.renew w s ctx lease ttl
    ]
  ]

  unfoldable pub release : World → Store → Option Context → Lease → Store × Result Error (Unit {0})
  unfolding context_err
  release w s ctx lease = elim (context_err ctx) [
    | some e ↦ (s, err e)
    | none ↦
        if is_blank lease.key
        then (s, err invalid_key)
        else if is_blank lease.owner
        then (s, err invalid_owner)
        else if lease.token == 0
        then (s, err stale_token)
        else store.release w s ctx lease
  ]

  -- What holds of the store before a call, and after the call of the store, holds after the call.
  pub acquire_cases {ℓ} :
      (P : Store → Type ℓ) (w : World) (s : Store) (ctx : Option Context) (key owner : String)
      (ttl : Duration)
      → P s
      → P (store.acquire w s ctx key owner ttl).0
      → P (acquire w s ctx key owner ttl).0
  unfolding acquire
  acquire_cases P w s ctx key owner ttl unchanged called = ground arith

  pub renew_cases {ℓ} :
      (P : Store → Type ℓ) (w : World) (s : Store) (ctx : Option Context) (lease : Lease)
      (ttl : Duration)
      → P s
      → P (store.renew w s ctx lease ttl).0
      → P (renew w s ctx lease ttl).0
  unfolding renew
  renew_cases P w s ctx lease ttl unchanged called = ground arith

  pub release_cases {ℓ} :
      (P : Store → Type ℓ) (w : World) (s : Store) (ctx : Option Context) (lease : Lease)
      → P s
      → P (store.release w s ctx lease).0
      → P (release w s ctx lease).0
  unfolding release
  release_cases P w s ctx lease unchanged called = ground arith
