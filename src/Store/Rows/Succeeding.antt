-- ===== src/Store/Rows/Succeeding.antt =====
-- The rules of `Succeeds` for the row operations.
use shadow_relay.Prelude.{◌≡◌, String, true, none, some}
use shadow_relay.Store.Op.{Op, ◌>>=◌, ◌>>◌}
use shadow_relay.Store.Op.Succeeds.{Succeeds}
use shadow_relay.Store.Table.{get, put, remove}
use shadow_relay.Store.Rows.{Slot, get_row, put_row, insert_row, delete_row}

module _ {κ} {S V B : Type 0} {Q : B → S → Type κ} (t : Slot S V) where
  pub Succeeds-get_row :
      (id : String) (f : V → Op S B) (s : S) {v : V}
      → get (t.view s) id ≡ some v
      → Succeeds Q (f v s)
      → Succeeds Q ((get_row t id >>= f) s)
  unfolding ◌>>=◌ get_row
  Succeeds-get_row id f s e h = rw (e, ◌>>=◌, get_row) h

  pub Succeeds-put_row :
      (id : String) (v : V) (k : Op S B) (s : S)
      → t.admits s id v ≡ true
      → Succeeds Q (k (t.update (put (t.view s) id v) s))
      → Succeeds Q ((put_row t id v >> k) s)
  unfolding ◌>>=◌ put_row
  Succeeds-put_row id v k s e h = rw (e, ◌>>=◌, put_row) h

  pub Succeeds-insert_row :
      (id : String) (v : V) (k : Op S B) (s : S)
      → get (t.view s) id ≡ none
      → t.admits s id v ≡ true
      → Succeeds Q (k (t.update (put (t.view s) id v) s))
      → Succeeds Q ((insert_row t id v >> k) s)
  unfolding ◌>>=◌ insert_row
  Succeeds-insert_row id v k s e y h = rw (e, y, ◌>>=◌, insert_row) h

  pub Succeeds-delete_row :
      (id : String) (k : Op S B) (s : S) {v : V}
      → get (t.view s) id ≡ some v
      → Succeeds Q (k (t.cascade id (t.update (remove (t.view s) id) s)))
      → Succeeds Q ((delete_row t id >> k) s)
  unfolding ◌>>=◌ delete_row
  Succeeds-delete_row id k s e h = rw (e, ◌>>=◌, delete_row) h
