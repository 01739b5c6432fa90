-- ===== src/State/Creation.antt =====
-- Creation: what `Create` stores, once.
use leo_runners.Base.{String, some, ◌≡◌, ◌≢◌, refl, sym, false, Context, live, ok, err, arith}
use leo_runners.Base.Int.{pos}
use leo_runners.Base.Time.{Time}
use leo_runners.Base.Text.{is_empty}
use leo_runners.Base.Dict.{get, put, get-put_self, get-put_ne}
use leo_runners.State.Types.{already_exists}
use leo_runners.State.Table.{Entity, Table, create, read, read_congr, fresh}

module _ (entity : Entity) where
  open entity use {Record, id, revision, id-stamp, revision-stamp}

  pub create-put :
      (now : Time) (ctx : Context) (v : Record) (t t' : Table entity)
      → create entity now ctx v t ≡ (t', ok tt)
      → (t' ≡ put (id v) (fresh entity now v) t) × (is_empty (id v) ≡ false)
  unfolding create
  create-put now ctx v t t' created = (ground arith, ground arith)

  create_taken :
      (now : Time) (w old : Record) (t : Table entity)
      → is_empty (id w) ≡ false
      → get (id w) t ≡ some old
      → create entity now live w t ≡ (t, err already_exists)
  unfolding create
  create_taken now w old t named there = ground arith

  -- A successful creation is what the next read finds, stamped with revision 1; reads of other
  -- identifiers find what they found before; and no second creation of the identifier succeeds.
  pub create_then_read :
      (now later : Time) (ctx ctx' : Context) (v w : Record) (t t' : Table entity) (k : String)
      → create entity now ctx v t ≡ (t', ok tt)
      → (read entity live (id v) t' ≡ ok (fresh entity now v))
        × (revision (fresh entity now v) ≡ pos 1)
        × (k ≢ id v → read entity ctx' k t' ≡ read entity ctx' k t)
        × (id w ≡ id v → create entity later live w t' ≡ (t', err already_exists))
  unfolding read fresh
  create_then_read now later ctx ctx' v w t t' k created =
      let (written, named) = create-put now ctx v t t' created in
      (
        rw written (rw (get-put_self (id v) (fresh entity now v) t) refl),
        revision-stamp v _ _ _,
        λ other. rw written (
            read_congr entity ctx' k _ _
              (get-put_ne (id v) k (fresh entity now v) t (λ p. other (sym p)))),
        λ same.
            create_taken later w (fresh entity now v) t' (rw same named)
              (rw (same, written) (get-put_self (id v) (fresh entity now v) t)),
      )
