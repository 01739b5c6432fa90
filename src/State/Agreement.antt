-- ===== src/State/Agreement.antt =====
-- When two lifecycle events are the same, in other words than those of `sameEvent`.
use leo_runners.Base.{
  String, Option, none, some, true, false, [], ◌∷◌, ◌≡◌, refl, ap, arith, eq_iff, All, length, ◌⊎◌,
  eq_refl, inl, inr, Bool-cases,
}
use leo_runners.Base.Int.{eqb_ℤ_refl, eqb_ℤ→eq}
use leo_runners.Base.Dict.{Dict, get}
use leo_runners.State.Types.{LifecycleEvent}
use leo_runners.State.Events.{maps_equal, all_found, text_at, same_event}

-- An entry reads the same in a map, where a missing key reads as the empty text.
abbrev pub ReadsIn : Dict String → String × String → Type 0
ReadsIn m e = (get e.0 m ≡ some e.1) ⊎ ((get e.0 m ≡ none) × (e.1 ≡ ""))

-- The event `w` says what the stored event `old` says: every field is equal, the payloads have as
-- many entries, and every entry of the stored payload reads the same in the other.
pub record Agrees (old w : LifecycleEvent) : Type 0 where
  pub same_id : old.id ≡ w.id
  pub same_key : old.idempotency_key ≡ w.idempotency_key
  pub same_kind : old.kind ≡ w.kind
  pub same_job : old.job_id ≡ w.job_id
  pub same_lease : old.lease_id ≡ w.lease_id
  pub same_runner : old.runner_id ≡ w.runner_id
  pub same_provider : old.provider ≡ w.provider
  pub same_time : old.occurred_at ≡ w.occurred_at
  pub same_length : length old.payload ≡ length w.payload
  pub same_entries : All (ReadsIn w.payload) old.payload

text_at-ReadsIn :
    (o : Option String) (x : String) → text_at o ≡ x → (o ≡ some x) ⊎ ((o ≡ none) × (x ≡ ""))
unfolding text_at
text_at-ReadsIn none x same = inr (refl, ground arith)
text_at-ReadsIn (some y) x same = inl (ap some same)

ReadsIn-text_at :
    (o : Option String) (x : String) → (o ≡ some x) ⊎ ((o ≡ none) × (x ≡ "")) → text_at o ≡ x
unfolding text_at
ReadsIn-text_at o x (inl there) = ground arith
ReadsIn-text_at o x (inr (missing, empty)) = ground arith

all_found-ReadsIn : (a b : Dict String) → all_found a b ≡ true → All (ReadsIn b) a
unfolding all_found
all_found-ReadsIn [] b found = tt
all_found-ReadsIn ((k, x) ∷ a) b found = (
  text_at-ReadsIn (get k b) x (ground (arith, eq_iff (text_at (get k b)) x)),
  all_found-ReadsIn a b (ground arith),
)

ReadsIn-all_found : (a b : Dict String) → All (ReadsIn b) a → all_found a b ≡ true
unfolding all_found
ReadsIn-all_found [] b reads = refl
ReadsIn-all_found ((k, x) ∷ a) b reads =
    let same = ReadsIn-text_at (get k b) x reads.0 in
    let rest = ReadsIn-all_found a b reads.1 in ground (arith, eq_iff (text_at (get k b)) x)

same_event-Agrees : (old w : LifecycleEvent) → same_event old w ≡ true → Agrees old w
unfolding same_event maps_equal
same_event-Agrees old w same = record {
  same_id = ground (arith, eq_iff old.id w.id);
  same_key = ground (arith, eq_iff old.idempotency_key w.idempotency_key);
  same_kind = ground (arith, eq_iff old.kind w.kind);
  same_job = ground (arith, eq_iff old.job_id w.job_id);
  same_lease = ground (arith, eq_iff old.lease_id w.lease_id);
  same_runner = ground (arith, eq_iff old.runner_id w.runner_id);
  same_provider = ground (arith, eq_iff old.provider w.provider);
  same_time = eqb_ℤ→eq old.occurred_at w.occurred_at (ground arith);
  same_length = ground arith;
  same_entries = all_found-ReadsIn old.payload w.payload (ground arith);
}

pub Agrees-same_event : (old w : LifecycleEvent) → Agrees old w → same_event old w ≡ true
unfolding same_event maps_equal
Agrees-same_event old w h =
    let found = ReadsIn-all_found old.payload w.payload h.same_entries in
    rw
      (
        h.same_id,
        h.same_key,
        h.same_kind,
        h.same_job,
        h.same_lease,
        h.same_runner,
        h.same_provider,
        h.same_time,
        h.same_length,
        found,
        eq_refl w.id,
        eq_refl w.idempotency_key,
        eq_refl w.kind,
        eq_refl w.job_id,
        eq_refl w.lease_id,
        eq_refl w.runner_id,
        eq_refl w.provider,
        eqb_ℤ_refl w.occurred_at,
      )
      (ground arith)

-- Two events that do not say the same are told apart.
pub differs-same_event : (old w : LifecycleEvent) → ¬ Agrees old w → same_event old w ≡ false
differs-same_event old w differ = elim (Bool-cases (same_event old w)) [
  | inl same ↦ absurd (differ (same_event-Agrees old w same))
  | inr other ↦ other
]
