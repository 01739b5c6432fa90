-- ===== src/State/Table.antt =====
-- The three tables of a repository, written once: jobs, runners and leases are created, read and
-- saved alike. Contexts are not nil; `now` is the reading of `time.Now().UTC()`.
use leo_runners.Base.Sort.{sort}
use leo_runners.Base.Text.Order.{str_lt}
use leo_runners.Base.{
  keep, true, String, Option, none, some, Bool, List, Result, ok, err, Context, live, done, ◌≡◌,
  refl, ap, arith, Option-cases, inl, inr, if◌then◌else◌, not,
}
use leo_runners.Base.Int.{ℤ, pos, eqb_ℤ, add64}
use leo_runners.Base.Time.{Time, is_zero, zero_time}
use leo_runners.Base.Dict.{Dict, get, put, values}
use leo_runners.Base.Text.{is_empty}
use leo_runners.State.Types.{
  Error, not_found, already_exists, revision_conflict, invalid_record, context,
}

-- A kind of record: what the repository reads of it, and the one way in which it changes it.
pub record Entity : Type 1 where
  pub Record : Type 0
  pub id : Record → String
  pub revision : Record → ℤ
  pub created_at : Record → Time
  pub updated_at : Record → Time
  -- New revision, creation time and update time.
  pub stamp : Record → ℤ → Time → Time → Record
  pub id-stamp : (v : Record) (r : ℤ) (c u : Time) → id (stamp v r c u) ≡ id v
  pub revision-stamp : (v : Record) (r : ℤ) (c u : Time) → revision (stamp v r c u) ≡ r
  pub created_at-stamp : (v : Record) (r : ℤ) (c u : Time) → created_at (stamp v r c u) ≡ c
  pub updated_at-stamp : (v : Record) (r : ℤ) (c u : Time) → updated_at (stamp v r c u) ≡ u

-- `checkContext`
abbrev pub check_context : Context → Option Error
check_context live = none
check_context (done e) = some (context e)

-- `if t.IsZero() { t = d }`
abbrev pub or_time : Time → Time → Time
or_time t d = if is_zero t then d else t

module _ (entity : Entity) where
  open entity use {Record, id, revision, created_at, stamp}

  abbrev pub Table : Type 0
  Table = Dict Record

  -- The record that `Create` stores.
  unfoldable pub fresh : Time → Record → Record
  fresh now v = let c = or_time (created_at v) now in stamp v (pos 1) c c

  unfoldable pub create_over :
      Option Record → Time → Record → Table → Table × Result Error (Unit {0})
  create_over (some old) now v t = (t, err already_exists)
  create_over none now v t = (put (id v) (fresh now v) t, ok tt)

  unfoldable pub create : Time → Context → Record → Table → Table × Result Error (Unit {0})
  unfolding create_over
  create now ctx v t = elim (check_context ctx) [
    | some e ↦ (t, err e)
    | none ↦ if is_empty (id v) then (t, err invalid_record) else create_over (get (id v) t) now v t
  ]

  found : Option Record → Result Error Record
  found none = err not_found
  found (some v) = ok v

  unfoldable pub read : Context → String → Table → Result Error Record
  unfolding found
  read ctx k t = elim (check_context ctx) [ some e ↦ err e | none ↦ found (get k t) ]

  -- A read depends on the entry of its identifier only.
  pub read_congr :
      (ctx : Context) (k : String) (t t' : Table)
      → get k t ≡ get k t'
      → read ctx k t ≡ read ctx k t'
  unfolding read
  read_congr live k t t' same = ap found same
  read_congr (done e) k t t' same = refl

  pub read_entry :
      (ctx : Context) (k : String) (v : Record) (t : Table) → read ctx k t ≡ ok v → get k t ≡ some v
  unfolding read found
  read_entry ctx k v t h = elim (Option-cases (get k t)) [
    | inl missing ↦ absurd (ground arith)
    | inr (old, there) ↦ ground arith
  ]

  pub read_missing :
      (ctx : Context) (k : String) (t : Table)
      → get k t ≡ none
      → (e : Error) × (read ctx k t ≡ err e)
  unfolding read found
  read_missing live k t missing = (not_found, rw missing refl)
  read_missing (done e) k t missing = (context e, refl)

  -- The record that `Save` stores: over no record, and over an old one.
  unfoldable pub first_version : Time → Record → Record
  first_version now v = stamp v (pos 1) (or_time (created_at v) zero_time) now

  unfoldable pub next_version : Time → Record → Record → Record
  unfolding add64
  next_version now old v =
      stamp v (add64 (revision old) (pos 1)) (or_time (created_at v) (created_at old)) now

  unfoldable pub save_over : Option Record → Time → Record → ℤ → Table → Table × Result Error Record
  save_over none now v expected t =
      if not (eqb_ℤ expected (pos 0))
      then (t, err not_found)
      else (put (id v) (first_version now v) t, ok (first_version now v))
  save_over (some old) now v expected t =
      if not (eqb_ℤ expected (revision old))
      then (t, err revision_conflict)
      else (put (id v) (next_version now old v) t, ok (next_version now old v))

  unfoldable pub save : Time → Context → Record → ℤ → Table → Table × Result Error Record
  unfolding save_over
  save now ctx v expected t = elim (check_context ctx) [
    | some e ↦ (t, err e)
    | none ↦
        if is_empty (id v)
        then (t, err invalid_record)
        else save_over (get (id v) t) now v expected t
  ]

  -- `out[i].ID < out[j].ID`
  abbrev pub by_id : Record → Record → Bool
  by_id a b = str_lt (id a) (id b)

  -- The records that pass a test, by identifier.
  unfoldable pub list : (Record → Bool) → Context → Table → Result Error (List Record)
  list test ctx t = elim (check_context ctx) [
    | some e ↦ err e
    | none ↦ ok (sort by_id (keep test (values t)))
  ]

  -- The records of a whole list that pass a test.
  unfoldable pub list_where : (Record → Bool) → Context → Table → Result Error (List Record)
  unfolding list
  list_where test ctx t = elim (list (λ v. true) ctx t) [
    | err e ↦ err e
    | ok all ↦ ok (keep test all)
  ]

  -- What holds of the table before a write, and after the write itself, holds after the call.
  pub create_cases {ℓ} :
      (P : Table → Type ℓ) (now : Time) (ctx : Context) (v : Record) (t : Table)
      → P t
      → (get (id v) t ≡ none → P (put (id v) (fresh now v) t))
      → P (create now ctx v t).0
  unfolding create
  create_cases P now ctx v t unchanged written = elim (Option-cases (get (id v) t)) [
    | inl free ↦ let p = written free in ground arith
    | inr (old, taken) ↦ ground arith
  ]

  pub save_cases {ℓ} :
      (P : Table → Type ℓ) (now : Time) (ctx : Context) (v : Record) (expected : ℤ) (t : Table)
      → P t
      → P (save_over (get (id v) t) now v expected t).0
      → P (save now ctx v expected t).0
  unfolding save
  save_cases P now ctx v expected t unchanged written = ground arith
