-- ===== src/State/Versions.antt =====
-- Revisions as versions: a record never goes away, and two reads with one revision read one record.
use leo_runners.Base.{
  ℕ, suc, ◌+◌, ◌^◌, ◌<◌, String, Option, none, some, List, [], ◌∷◌, ◌≡◌, ◌≢◌, ◌⊎◌, inl, inr, refl,
  sym, ap, subst, ◌∙◌, Context, Bool-cases, arith, length,
}
use leo_runners.Base.Int.{ℤ, pos, eqb_ℤ, add64, add64_one}
use leo_runners.Base.Time.{Time}
use leo_runners.Base.Text.Order.{str_cases}
use leo_runners.Base.Dict.{get, get-put_self, get-put_ne}
use leo_runners.State.Table.{
  Entity, Table, create, save, save_over, save_cases, create_cases, fresh, first_version,
  next_version,
}
use leo_runners.State.Concurrency.{revision-next_version}

module _ (entity : Entity) where
  open entity use {Record, id, revision}

  -- A call that may write to the table.
  pub data Write : Type 0 where
    creates : Time → Context → Record → Write
    saves : Time → Context → Record → ℤ → Write

  abbrev pub apply : Table entity → Write → Table entity
  apply t (creates now ctx v) = (create entity now ctx v t).0
  apply t (saves now ctx v expected) = (save entity now ctx v expected t).0

  pub run : Table entity → List Write → Table entity
  run t [] = t
  run t (w ∷ ws) = run (apply t w) ws

  -- What is stored is the old record, whose revision is `r`, or a record with a greater revision;
  -- `n` more writes do not wrap the revision.
  abbrev pub Since : Record → ℕ → ℕ → Option Record → Type 0
  Since old r n none = ⊥
  Since old r n (some new) =
      (m : ℕ) × (revision new ≡ pos m) × (m + n < 2 ^ 63) × (((new ≡ old) × (m ≡ r)) ⊎ (r < m))

  module _ (old : Record) (r n : ℕ) where
    Since-mono : (o : Option Record) → Since old r (suc n) o → Since old r n o
    Since-mono none s = s
    Since-mono (some new) (m, e, room, s) = (m, e, omega arith, s)

    save_over-Since :
        (o : Option Record) (now : Time) (v : Record) (expected : ℤ) (t : Table entity)
        → get (id v) t ≡ o
        → Since old r (suc n) o
        → Since old r n (get (id v) (save_over entity o now v expected t).0)
    unfolding save_over
    save_over-Since none now v expected t here s = absurd s
    save_over-Since (some new) now v expected t here (m, e, room, s) =
        elim (Bool-cases (eqb_ℤ expected (revision new))) [
          | inl same ↦
              rw (same, get-put_self (id v) (next_version entity now new v) t)
                (
                  suc m,
                  revision-next_version entity now new v
                      ∙ ap (λ x. add64 x (pos 1)) e
                      ∙ add64_one m (omega arith)
                      ∙ ap pos (omega arith),
                  omega arith,
                  inr (omega arith),
                )
          | inr differ ↦ rw (differ, here) (m, e, omega arith, s)
        ]

    save_over-Since_ne :
        (k : String) (o : Option Record) (now : Time) (v : Record) (expected : ℤ) (t : Table entity)
        → id v ≢ k
        → Since old r (suc n) (get k t)
        → Since old r n (get k (save_over entity o now v expected t).0)
    unfolding save_over
    save_over-Since_ne k none now v expected t other s =
        ground
          (arith, get-put_ne (id v) k (first_version entity now v) t other, Since-mono (get k t) s)
    save_over-Since_ne k (some new) now v expected t other s =
        ground (
          arith,
          get-put_ne (id v) k (next_version entity now new v) t other,
          Since-mono (get k t) s,
        )

    save-Since :
        (k : String) (now : Time) (ctx : Context) (v : Record) (expected : ℤ) (t : Table entity)
        → Since old r (suc n) (get k t)
        → Since old r n (get k (save entity now ctx v expected t).0)
    save-Since k now ctx v expected t s =
        save_cases entity (λ x. Since old r n (get k x)) now ctx v expected t
          (Since-mono (get k t) s)
          (elim (str_cases (id v) k) [
            | inl same ↦
                subst
                  (λ j. Since old r n (get j (save_over entity (get (id v) t) now v expected t).0))
                  same
                  (save_over-Since (get (id v) t) now v expected t refl
                    (subst (λ j. Since old r (suc n) (get j t)) (sym same) s))
            | inr other ↦ save_over-Since_ne k (get (id v) t) now v expected t other s
          ])

    create-Since :
        (k : String) (now : Time) (ctx : Context) (v : Record) (t : Table entity)
        → Since old r (suc n) (get k t)
        → Since old r n (get k (create entity now ctx v t).0)
    create-Since k now ctx v t s =
        create_cases entity (λ x. Since old r n (get k x)) now ctx v t (Since-mono (get k t) s)
          (λ free. elim (str_cases (id v) k) [
            | inl same ↦ absurd (
                subst (Since old r (suc n)) free
                  (subst (λ j. Since old r (suc n) (get j t)) (sym same) s))
            | inr other ↦
                subst (Since old r n) (sym (get-put_ne (id v) k (fresh entity now v) t other))
                  (Since-mono (get k t) s)
          ])

  run-Since :
      (old : Record) (r : ℕ) (k : String) (t : Table entity) (ws : List Write)
      → Since old r (length ws) (get k t)
      → Since old r 0 (get k (run t ws))
  unfolding run
  run-Since old r k t [] s = s
  run-Since old r k t (creates now ctx v ∷ ws) s =
      run-Since old r k (apply t (creates now ctx v)) ws
        (create-Since old r (length ws) k now ctx v t s)
  run-Since old r k t (saves now ctx v expected ∷ ws) s =
      run-Since old r k (apply t (saves now ctx v expected)) ws
        (save-Since old r (length ws) k now ctx v expected t s)

  -- Whatever writes come, a stored record never goes away, its revision never falls, and it stays
  -- the same record for as long as its revision stays the same: a revision names one version.
  -- (The 63 bits of the revision must not run out.)
  pub revision_names_version :
      (old : Record) (r : ℕ) (k : String) (t : Table entity) (ws : List Write)
      → get k t ≡ some old
      → revision old ≡ pos r
      → r + length ws < 2 ^ 63
      → (new : Record) × (m : ℕ) × (get k (run t ws) ≡ some new)
        × (revision new ≡ pos m)
        × (((new ≡ old) × (m ≡ r)) ⊎ (r < m))
  revision_names_version old r k t ws there at room = stored (get k (run t ws)) refl (
      run-Since old r k t ws
        (subst (Since old r (length ws)) (sym there) (r, at, room, inl (refl, refl))))
    where
      stored :
          (o : Option Record)
          → get k (run t ws) ≡ o
          → Since old r 0 o
          → (new : Record) × (m : ℕ) × (get k (run t ws) ≡ some new)
            × (revision new ≡ pos m)
            × (((new ≡ old) × (m ≡ r)) ⊎ (r < m))
      stored none e s = absurd s
      stored (some new) e (m, at', room', s) = (new, m, e, at', s)
