-- ===== src/State/Concurrency.antt =====
-- Optimistic concurrency: conditional writes, and what they leave for later reads and writes.
use leo_runners.Base.{
  String, Option, none, some, ◌≡◌, ◌≢◌, refl, sym, false, Context, live, ok, err, arith,
}
use leo_runners.Base.Int.{ℤ, pos, eqb_ℤ, add64, eqb_ℤ→eq, eqb_ℤ-add64-one, add64_zero_one}
use leo_runners.Base.Time.{Time}
use leo_runners.Base.Text.{is_empty}
use leo_runners.Base.Dict.{get, put, get-put_self, get-put_ne}
use leo_runners.State.Types.{revision_conflict}
use leo_runners.State.Table.{
  Entity, Table, read, read_congr, save, save_over, first_version, next_version,
}

module _ (entity : Entity) where
  open entity use {Record, id, revision, id-stamp, revision-stamp}

  pub id-first_version : (now : Time) (v : Record) → id (first_version entity now v) ≡ id v
  unfolding first_version
  id-first_version now v = id-stamp v _ _ _

  pub revision-first_version :
      (now : Time) (v : Record) → revision (first_version entity now v) ≡ pos 1
  unfolding first_version
  revision-first_version now v = revision-stamp v _ _ _

  pub id-next_version : (now : Time) (old v : Record) → id (next_version entity now old v) ≡ id v
  unfolding next_version
  id-next_version now old v = id-stamp v _ _ _

  pub revision-next_version :
      (now : Time) (old v : Record)
      → revision (next_version entity now old v) ≡ add64 (revision old) (pos 1)
  unfolding next_version
  revision-next_version now old v = revision-stamp v _ _ _

  -- What a successful conditional write did.
  pub record Saved (v : Record) (expected : ℤ) (t t' : Table entity) (v' : Record) : Type 0 where
    pub written : t' ≡ put (id v) v' t
    pub named : is_empty (id v) ≡ false
    pub same_id : id v' ≡ id v
    pub next_revision : revision v' ≡ add64 expected (pos 1)

  save_over-Saved :
      (o : Option Record) (now : Time) (v v' : Record) (expected : ℤ) (t t' : Table entity)
      → is_empty (id v) ≡ false
      → save_over entity o now v expected t ≡ (t', ok v')
      → Saved v expected t t' v'
  unfolding save_over
  save_over-Saved none now v v' expected t t' named saved = record {
    written = ground arith;
    named = named;
    same_id = ground (arith, id-first_version now v);
    next_revision =
        ground (arith, revision-first_version now v, eqb_ℤ→eq expected (pos 0), add64_zero_one);
  }
  save_over-Saved (some old) now v v' expected t t' named saved = record {
    written = ground arith;
    named = named;
    same_id = ground (arith, id-next_version now old v);
    next_revision =
        ground (arith, revision-next_version now old v, eqb_ℤ→eq expected (revision old));
  }

  pub save-Saved :
      (now : Time) (ctx : Context) (v v' : Record) (expected : ℤ) (t t' : Table entity)
      → save entity now ctx v expected t ≡ (t', ok v')
      → Saved v expected t t' v'
  unfolding save
  save-Saved now ctx v v' expected t t' saved =
      save_over-Saved (get (id v) t) now v v' expected t t' (ground arith) (ground arith)

  -- A write that expects another revision than the stored one changes nothing.
  pub save_conflict :
      (now : Time) (w old : Record) (expected : ℤ) (t : Table entity)
      → is_empty (id w) ≡ false
      → get (id w) t ≡ some old
      → eqb_ℤ expected (revision old) ≡ false
      → save entity now live w expected t ≡ (t, err revision_conflict)
  unfolding save
  save_conflict now w old expected t named there differ = ground arith

  -- No lost update: of two writers that save the same record on the same expected revision (0 for
  -- a creation), the second is refused, whoever they are and whatever they write.
  pub no_lost_update :
      (now later : Time) (ctx : Context) (v w v' : Record) (expected : ℤ) (t t' : Table entity)
      → save entity now ctx v expected t ≡ (t', ok v')
      → id w ≡ id v
      → save entity later live w expected t' ≡ (t', err revision_conflict)
  no_lost_update now later ctx v w v' expected t t' saved same =
      let s = save-Saved now ctx v v' expected t t' saved in
      save_conflict later w v' expected t' (rw same s.named)
        (rw (same, s.written) (get-put_self (id v) v' t))
        (rw s.next_revision (eqb_ℤ-add64-one expected))

  -- A successful write is what the next read of its identifier finds, with the revision after the
  -- expected one; reads of other identifiers find what they found before.
  pub save_then_found :
      (now : Time) (ctx ctx' : Context) (v v' : Record) (expected : ℤ) (t t' : Table entity)
      (k : String)
      → save entity now ctx v expected t ≡ (t', ok v')
      → (read entity live (id v) t' ≡ ok v')
        × (revision v' ≡ add64 expected (pos 1))
        × (k ≢ id v → read entity ctx' k t' ≡ read entity ctx' k t)
  unfolding read
  save_then_found now ctx ctx' v v' expected t t' k saved =
      let s = save-Saved now ctx v v' expected t t' saved in
      (
        rw s.written (rw (get-put_self (id v) v' t) refl),
        s.next_revision,
        λ other.
            rw s.written
              (read_congr entity ctx' k _ _ (get-put_ne (id v) k v' t (λ p. other (sym p)))),
      )
