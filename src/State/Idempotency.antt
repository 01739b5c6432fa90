-- ===== src/State/Idempotency.antt =====
-- An idempotency key names one event, and where that fails.
use leo_runners.Base.{
  Bool, String, Option, none, some, true, false, [], ◌∷◌, ◌≡◌, ◌≢◌, refl, sym, ap, ◌∙◌, Context,
  live, ok, err, arith, eq_iff, eq_refl, if◌then◌else◌, All,
}
use leo_runners.Base.Int.{eqb_ℤ_refl}
use leo_runners.Base.Dict.{Dict, get, get-put_self}
use mathlib.Core.Bool.{false≢true}
use leo_runners.Base.Text.{is_empty}
use leo_runners.Base.Text.Order.{str_ne}
use leo_runners.State.Types.{LifecycleEvent, event_conflict}
use leo_runners.State.Memory.{MemoryRepository}
use leo_runners.State.Agreement.{Agrees, Agrees-same_event, differs-same_event}
use leo_runners.State.Events.{
  maps_equal, all_found, text_at, same_event, key_of, stored, insert_over, insert_lifecycle_event,
}

-- No key twice, as in every Go map.
abbrev pub IsMap : Dict String → Type 0
IsMap [] = Unit
IsMap ((k, v) ∷ m) = (get k m ≡ none) × IsMap m

All-get-cons :
    (k v : String) (a b : Dict String)
    → get k b ≡ none
    → All (λ (e : String × String). get e.0 b ≡ some e.1) a
    → All (λ (e : String × String). get e.0 ((k, v) ∷ b) ≡ some e.1) a
unfolding get
All-get-cons k v [] b fresh q = tt
All-get-cons k v ((j, w) ∷ a) b fresh q =
    (ground (arith, eq_iff k j), All-get-cons k v a b fresh q.1)

IsMap-get : (m : Dict String) → IsMap m → All (λ (e : String × String). get e.0 m ≡ some e.1) m
unfolding get
IsMap-get [] h = tt
IsMap-get ((k, v) ∷ m) h = (rw (eq_refl k) refl, All-get-cons k v m m h.0 (IsMap-get m h.1))

all_found_of_get :
    (a b : Dict String)
    → All (λ (e : String × String). get e.0 b ≡ some e.1) a
    → all_found a b ≡ true
unfolding all_found
all_found_of_get [] b q = refl
all_found_of_get ((k, v) ∷ a) b q = rw (q.0, text_at) (rw (eq_refl v) (all_found_of_get a b q.1))

maps_equal_refl : (m : Dict String) → IsMap m → maps_equal m m ≡ true
unfolding maps_equal
maps_equal_refl m h = rw (all_found_of_get m m (IsMap-get m h)) (ground arith)

-- A stored event equals the inserted one, if that carried its key.
same_event-stored :
    (v : LifecycleEvent)
    → is_empty v.idempotency_key ≡ false
    → IsMap v.payload
    → same_event (stored v) v ≡ true
unfolding same_event stored key_of
same_event-stored v keyed payload =
    rw
      (
        keyed,
        eq_refl v.id,
        eq_refl v.idempotency_key,
        eq_refl v.kind,
        eq_refl v.job_id,
        eq_refl v.lease_id,
        eq_refl v.runner_id,
        eq_refl v.provider,
        eqb_ℤ_refl v.occurred_at,
        maps_equal_refl v.payload payload,
      )
      refl

-- A stored event differs from the inserted one, if that carried no key.
same_event_keyless :
    (v : LifecycleEvent)
    → is_empty v.idempotency_key ≡ true
    → is_empty (key_of v) ≡ false
    → same_event (stored v) v ≡ false
unfolding same_event stored key_of
same_event_keyless v keyless named =
    let named' = rw keyless at named in
    let differ =
      str_ne v.id v.idempotency_key
        (λ p. false≢true (sym named' ∙ ap (λ s. is_empty s) p ∙ keyless)) in
    rw (keyless, eq_refl v.id, differ) refl

-- The entry of an event without a key.
stored_keyless :
    (v : LifecycleEvent) (r : MemoryRepository)
    → is_empty v.idempotency_key ≡ true
    → get (key_of v) r.events ≡ some (stored v)
    → get v.id r.events ≡ some (record v { idempotency_key = v.id })
unfolding stored key_of
stored_keyless v r keyless there = ground arith

-- What a successful insertion did.
record Inserted (v : LifecycleEvent) (r r' : MemoryRepository) : Type 0 where
  there : get (key_of v) r'.events ≡ some (stored v)
  named : is_empty (key_of v) ≡ false

insert_over-there :
    (o : Option LifecycleEvent) (v : LifecycleEvent) (r r' : MemoryRepository)
    → insert_over o v r ≡ (r', ok true)
    → get (key_of v) r'.events ≡ some (stored v)
unfolding insert_over
insert_over-there none v r r' inserted = ground (arith, get-put_self (key_of v) (stored v) r.events)
insert_over-there (some old) v r r' inserted = ground arith

insert-Inserted :
    (ctx : Context) (v : LifecycleEvent) (r r' : MemoryRepository)
    → insert_lifecycle_event ctx v r ≡ (r', ok true)
    → Inserted v r r'
unfolding insert_lifecycle_event
insert-Inserted ctx v r r' inserted = record {
  there =
      insert_over-there (get (key_of v) r.events) v r r'
        (ground (arith, insert_over-there (get (key_of v) r.events) v r r'));
  named = ground arith;
}

-- An insertion under a key that is taken.
pub insert_again :
    (w old : LifecycleEvent) (r : MemoryRepository)
    → get (key_of w) r.events ≡ some old
    → is_empty (key_of w) ≡ false
    → is_empty w.kind ≡ false
    → insert_lifecycle_event live w r
      ≡ (if same_event old w then (r, ok false) else (r, err event_conflict))
unfolding insert_lifecycle_event
insert_again w old r there named kinded = rw (named, kinded, there, insert_over) refl

-- An insertion under the key of an event that was inserted.
insert_repeated :
    (ctx : Context) (v w : LifecycleEvent) (r r' : MemoryRepository)
    → insert_lifecycle_event ctx v r ≡ (r', ok true)
    → key_of w ≡ key_of v
    → is_empty w.kind ≡ false
    → insert_lifecycle_event live w r'
      ≡ (if same_event (stored v) w then (r', ok false) else (r', err event_conflict))
insert_repeated ctx v w r r' inserted same kinded =
    let i = insert-Inserted ctx v r r' inserted in
    insert_again w (stored v) r' (rw same i.there) (rw same i.named) kinded

-- After an event was inserted, its key names it. A further insertion under that key, in a live
-- context and of an event whose kind is not empty, writes nothing; it answers `false` if the event
-- agrees with the stored one, which is the first with its key, and a conflict if it does not. To
-- agree is to have the same fields and as many payload entries, and to read the same at every key
-- of the stored payload, where a missing key reads as the empty text.
pub key_names_event :
    (ctx : Context) (v w : LifecycleEvent) (r r' : MemoryRepository)
    → insert_lifecycle_event ctx v r ≡ (r', ok true)
    → key_of w ≡ key_of v
    → is_empty w.kind ≡ false
    → (get (key_of v) r'.events ≡ some (record v { idempotency_key = key_of v }))
      × (Agrees (record v { idempotency_key = key_of v }) w
          → insert_lifecycle_event live w r' ≡ (r', ok false))
      × (¬ Agrees (record v { idempotency_key = key_of v }) w
          → insert_lifecycle_event live w r' ≡ (r', err event_conflict))
unfolding stored
key_names_event ctx v w r r' inserted same kinded =
    let again = insert_repeated ctx v w r r' inserted same kinded in
    let old : LifecycleEvent = record v { idempotency_key = key_of v } in
    (
      (insert-Inserted ctx v r r' inserted).there,
      λ agrees. again ∙ rw (Agrees-same_event old w agrees) refl,
      λ differs. again ∙ rw (differs-same_event old w differs) refl,
    )

-- An event that carries its own idempotency key is inserted idempotently: a repetition writes
-- nothing and answers `false`.
pub repeated_insert :
    (ctx : Context) (v : LifecycleEvent) (r r' : MemoryRepository)
    → insert_lifecycle_event ctx v r ≡ (r', ok true)
    → is_empty v.idempotency_key ≡ false
    → is_empty v.kind ≡ false
    → IsMap v.payload
    → insert_lifecycle_event live v r' ≡ (r', ok false)
repeated_insert ctx v r r' inserted keyed kinded payload =
    insert_repeated ctx v v r r' inserted refl kinded ∙ rw (same_event-stored v keyed payload) refl

-- An event without an idempotency key is stored under its identifier, as its key, but is not
-- inserted idempotently: its repetition, in a live context and with a kind that is not empty, is
-- answered by a conflict and writes nothing.
pub keyless_repetition_conflicts :
    (ctx : Context) (v : LifecycleEvent) (r r' : MemoryRepository)
    → insert_lifecycle_event ctx v r ≡ (r', ok true)
    → is_empty v.idempotency_key ≡ true
    → is_empty v.kind ≡ false
    → (get v.id r'.events ≡ some (record v { idempotency_key = v.id }))
      × (insert_lifecycle_event live v r' ≡ (r', err event_conflict))
keyless_repetition_conflicts ctx v r r' inserted keyless kinded =
    let i = insert-Inserted ctx v r r' inserted in
    (
      stored_keyless v r' keyless i.there,
      insert_repeated ctx v v r r' inserted refl kinded
          ∙ rw (same_event_keyless v keyless i.named) refl,
    )

get_one_ne : (j k v : String) → j ≢ k → get k ((j, v) ∷ []) ≡ none
unfolding get
get_one_ne j k v differ = rw (str_ne j k differ) refl

get_one_self : (k v : String) → get k ((k, v) ∷ []) ≡ some v
unfolding get
get_one_self k v = rw (eq_refl k) refl

-- `mapsEqual` takes a missing key for an empty text, so that it equates maps that differ: with
-- one entry each, under different keys, the first one's value empty.
pub maps_equal_confuses :
    (j k v : String)
    → j ≢ k
    → (maps_equal ((j, "") ∷ []) ((k, v) ∷ []) ≡ true)
      × (get k ((j, "") ∷ []) ≢ get k ((k, v) ∷ []))
unfolding maps_equal
maps_equal_confuses j k v differ = (
  rw (get_one_ne k j v (λ p. differ (sym p)), text_at) refl,
  λ h. cc (get_one_ne j k "" differ, get_one_self k v, h),
)

insert_over-same :
    (o : Option LifecycleEvent) (v : LifecycleEvent) (r r' : MemoryRepository) (b : Bool)
    → get (key_of v) r.events ≡ o
    → same_event (stored v) v ≡ true
    → insert_over o v r ≡ (r', ok b)
    → (old : LifecycleEvent) × (get (key_of v) r'.events ≡ some old) × (same_event old v ≡ true)
unfolding insert_over
insert_over-same none v r r' b here same inserted =
    (stored v, ground (arith, get-put_self (key_of v) (stored v) r.events), same)
insert_over-same (some old) v r r' b here same inserted = (old, ground arith, ground arith)

-- After an insertion that did not fail, the key names an event that is the same.
pub insert-same :
    (ctx : Context) (v : LifecycleEvent) (r r' : MemoryRepository) (b : Bool)
    → insert_lifecycle_event ctx v r ≡ (r', ok b)
    → is_empty v.idempotency_key ≡ false
    → IsMap v.payload
    → (old : LifecycleEvent) × (get (key_of v) r'.events ≡ some old) × (same_event old v ≡ true)
unfolding insert_lifecycle_event
insert-same ctx v r r' b inserted keyed payload =
    insert_over-same (get (key_of v) r.events) v r r' b refl (same_event-stored v keyed payload)
      (ground arith)
