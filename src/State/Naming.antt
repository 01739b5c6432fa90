-- ===== src/State/Naming.antt =====
-- Records stand in the repository under their own identifiers.
use leo_runners.Base.{
  ◌≡◌, sym, ◌∙◌, String, Option, none, some, ok, Context, arith, eq_iff, str_eq, Bool-cases, inl,
  inr, ◌⊎◌, true, false, if◌then◌else◌,
}
use leo_runners.Base.Int.{ℤ}
use leo_runners.Base.Time.{Time}
use leo_runners.Base.Dict.{get, put, get-put}
use leo_runners.State.Table.{
  Entity, Table, create, create_cases, save, save_over, save_cases, fresh, first_version,
  next_version,
}
use leo_runners.State.Concurrency.{id-first_version, id-next_version}

module _ (entity : Entity) where
  open entity use {Record, id, id-stamp}

  abbrev pub IsKeyed : Table entity → Type 0
  IsKeyed t = (k : String) (v : Record) → get k t ≡ some v → id v ≡ k

  put-IsKeyed :
      (k : String) (v : Record) (t : Table entity) → id v ≡ k → IsKeyed t → IsKeyed (put k v t)
  put-IsKeyed k v t named keyed j x there =
      found-IsKeyed (Bool-cases (str_eq k j)) (sym (get-put k j v t) ∙ there)
    where
      found-IsKeyed :
          (str_eq k j ≡ true) ⊎ (str_eq k j ≡ false)
          → (if str_eq k j then some v else get j t) ≡ some x
          → id x ≡ j
      found-IsKeyed (inl same) found = ground (arith, eq_iff k j, keyed j x)
      found-IsKeyed (inr differs) found = ground (arith, keyed j x)

  pub create-IsKeyed :
      (now : Time) (ctx : Context) (v : Record) (t : Table entity)
      → IsKeyed t
      → IsKeyed (create entity now ctx v t).0
  unfolding fresh
  create-IsKeyed now ctx v t keyed =
      create_cases entity IsKeyed now ctx v t keyed
        (λ free. put-IsKeyed (id v) (fresh entity now v) t (id-stamp v _ _ _) keyed)

  save_over-IsKeyed :
      (o : Option Record) (now : Time) (v : Record) (expected : ℤ) (t : Table entity)
      → IsKeyed t
      → IsKeyed (save_over entity o now v expected t).0
  unfolding save_over
  save_over-IsKeyed none now v expected t keyed =
      let put_ =
        put-IsKeyed (id v) (first_version entity now v) t (id-first_version entity now v) keyed in
      ground arith
  save_over-IsKeyed (some old) now v expected t keyed =
      let put_ =
        put-IsKeyed (id v) (next_version entity now old v) t (id-next_version entity now old v)
          keyed in
      ground arith

  pub save-IsKeyed :
      (now : Time) (ctx : Context) (v : Record) (expected : ℤ) (t : Table entity)
      → IsKeyed t
      → IsKeyed (save entity now ctx v expected t).0
  save-IsKeyed now ctx v expected t keyed =
      save_cases entity IsKeyed now ctx v expected t keyed
        (save_over-IsKeyed (get (id v) t) now v expected t keyed)

  save_over-next :
      (o : Option Record) (now : Time) (old v u : Record) (expected : ℤ) (t t' : Table entity)
      → o ≡ some old
      → save_over entity o now v expected t ≡ (t', ok u)
      → u ≡ next_version entity now old v
  unfolding save_over
  save_over-next none now old v u expected t t' there h = absurd (ground arith)
  save_over-next (some x) now old v u expected t t' there h = ground arith

  -- What a conditional write over a record returns.
  pub save-next :
      (now : Time) (ctx : Context) (old v u : Record) (expected : ℤ) (t t' : Table entity)
      → get (id v) t ≡ some old
      → save entity now ctx v expected t ≡ (t', ok u)
      → u ≡ next_version entity now old v
  unfolding save
  save-next now ctx old v u expected t t' there h =
      save_over-next (get (id v) t) now old v u expected t t' there (ground arith)
