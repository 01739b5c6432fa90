-- ===== src/Coordination/Follows.antt =====
-- How the entry of a key follows from a lease that was given on it, as long as nobody releases.
use leo_runners.Base.{
  ℕ, suc, ◌+◌, ◌^◌, ◌<◌, String, Option, none, some, ◌≡◌, ◌⊎◌, inl, inr, refl, sym, subst, Context,
  arith,
}
use leo_runners.Base.Time.{Time, Duration}
use leo_runners.Base.Text.Order.{str_cases}
use leo_runners.Base.Dict.{get, get-put_self}
use leo_runners.Coordination.Lease.{Lease}
use leo_runners.Coordination.MemoryStore.{
  MemoryStore, Entry, acquire, acquire_over, renew, renew_over, renewed, granted, grant,
}
use leo_runners.Coordination.Refusal.{get-acquire_ne, get-renew_ne}

-- The entry came from `lease` by renewals and later grants: its holder has the lease's token and
-- owner still, or a greater token. `n` more grants do not wrap its counter.
abbrev pub Follows : Lease → ℕ → Option Entry → Type 0
Follows lease n none = ⊥
Follows lease n (some e) =
    (e.lease.token ≡ e.next)
    × (e.next + n < 2 ^ 64)
    × (((lease.token ≡ e.next) × (lease.owner ≡ e.lease.owner)) ⊎ (lease.token < e.next))

module _ (lease : Lease) (n : ℕ) where
  grant-Follows :
      (s : MemoryStore) (t : Time) (key owner : String) (ttl : Duration) (e : Entry)
      → get key s.items ≡ some e
      → Follows lease (suc n) (some e)
      → Follows lease n (get key (grant s key owner ttl t).0.items)
  unfolding grant granted
  grant-Follows s t key owner ttl e here f =
      rw (get-put_self key (granted s key owner ttl t) s.items) (ground arith)

  acquire_over-Follows :
      (s : MemoryStore) (t : Time) (key owner : String) (ttl : Duration) (o : Option Entry)
      → get key s.items ≡ o
      → Follows lease (suc n) o
      → Follows lease n (get key (acquire_over o s key owner ttl t).0.items)
  unfolding acquire_over
  acquire_over-Follows s t key owner ttl none here f = absurd f
  acquire_over-Follows s t key owner ttl (some e) here f =
      ground (arith, grant-Follows s t key owner ttl e here f)

  renew_over-Follows :
      (s : MemoryStore) (clock : Time × Time) (l : Lease) (ttl : Duration) (o : Option Entry)
      → get l.key s.items ≡ o
      → Follows lease (suc n) o
      → Follows lease n (get l.key (renew_over o s l ttl clock).0.items)
  unfolding renew_over
  renew_over-Follows s clock l ttl none here f = absurd f
  renew_over-Follows s (t, later) l ttl (some e) here f =
      ground (arith, get-put_self l.key (renewed e ttl later) s.items)

  -- A call on another key uses up no grant of this one.
  pub Follows-mono : (o : Option Entry) → Follows lease (suc n) o → Follows lease n o
  Follows-mono none f = f
  Follows-mono (some e) f = ground arith

  pub acquire-Follows :
      (s : MemoryStore) (k : String) (t : Time) (ctx : Option Context) (key owner : String)
      (ttl : Duration)
      → Follows lease (suc n) (get k s.items)
      → Follows lease n (get k (acquire t s ctx key owner ttl).0.items)
  unfolding acquire
  acquire-Follows s k t ctx key owner ttl f = elim (str_cases key k) [
    | inl same ↦
        subst (λ j. Follows lease n (get j (acquire t s ctx key owner ttl).0.items)) same
          (here (subst (λ j. Follows lease (suc n) (get j s.items)) (sym same) f))
    | inr differ ↦
        subst (Follows lease n) (sym (get-acquire_ne k key s differ t ctx owner ttl))
          (Follows-mono (get k s.items) f)
  ]
    where
      here :
          Follows lease (suc n) (get key s.items)
          → Follows lease n (get key (acquire t s ctx key owner ttl).0.items)
      here f = ground (
        arith,
        Follows-mono (get key s.items) f,
        acquire_over-Follows s t key owner ttl (get key s.items) refl f,
      )

  pub renew-Follows :
      (s : MemoryStore) (k : String) (clock : Time × Time) (ctx : Option Context) (l : Lease)
      (ttl : Duration)
      → Follows lease (suc n) (get k s.items)
      → Follows lease n (get k (renew clock s ctx l ttl).0.items)
  unfolding renew
  renew-Follows s k clock ctx l ttl f = elim (str_cases l.key k) [
    | inl same ↦
        subst (λ j. Follows lease n (get j (renew clock s ctx l ttl).0.items)) same
          (here (subst (λ j. Follows lease (suc n) (get j s.items)) (sym same) f))
    | inr differ ↦
        subst (Follows lease n) (sym (get-renew_ne k s clock ctx l ttl differ))
          (Follows-mono (get k s.items) f)
  ]
    where
      here :
          Follows lease (suc n) (get l.key s.items)
          → Follows lease n (get l.key (renew clock s ctx l ttl).0.items)
      here f = ground (
        arith,
        Follows-mono (get l.key s.items) f,
        renew_over-Follows s clock l ttl (get l.key s.items) refl f,
      )
