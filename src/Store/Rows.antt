-- ===== src/Store/Rows.antt =====
-- store.Get, List, Put, Insert and Delete on one table of a database, with the constraints that the
-- migrations declare for it. A database that answers: lost connections are not modelled.
pub mod Rules
pub mod Succeeding
use shadow_relay.Prelude.{String, Bool, none, some, List, if◌then◌else◌, ◌&&◌, not}
use shadow_relay.Store.Table.{Table, get, put, remove, rows, has}
use shadow_relay.Store.Op.{not_found, constraint, ok, err, Op}

-- Where a table stands in a database, what its foreign keys and unique indexes ask of a row, and
-- what else goes with a deleted row (ON DELETE CASCADE).
pub record Slot (S V : Type 0) : Type 0 where
  pub view : S → Table V
  pub update : Table V → S → S
  pub admits : S → String → V → Bool
  pub cascade : String → S → S

module _ {S V : Type 0} (t : Slot S V) where
  unfoldable pub get_row : String → Op S V
  get_row id s = elim (get (t.view s) id) [ none ↦ err not_found s | some v ↦ ok v s ]

  unfoldable pub list_rows : Op S (List V)
  list_rows s = ok (rows (t.view s)) s

  unfoldable pub put_row : String → V → Op S Unit
  put_row id v s =
      if t.admits s id v then ok tt (t.update (put (t.view s) id v) s) else err constraint s

  unfoldable pub insert_row : String → V → Op S Unit
  insert_row id v s =
      if not (has (t.view s) id) && t.admits s id v
      then ok tt (t.update (put (t.view s) id v) s)
      else err constraint s

  unfoldable pub delete_row : String → Op S Unit
  delete_row id s =
      if has (t.view s) id
      then ok tt (t.cascade id (t.update (remove (t.view s) id) s))
      else err not_found s

  -- `DELETE FROM … WHERE id=$1` with no test of the rows affected.
  unfoldable pub discard_row : String → Op S Unit
  discard_row id s = ok tt (t.cascade id (t.update (remove (t.view s) id) s))
