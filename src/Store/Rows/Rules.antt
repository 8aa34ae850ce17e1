-- ===== src/Store/Rows/Rules.antt =====
-- The rules of `Ensures` for the row operations: what a later step may use of each.
use shadow_relay.Prelude.{
  String, ◌≡◌, true, none, some, List, Bool-cases, Option-cases, inr, inl, not, ◌&&◌, arith,
}
use shadow_relay.Store.Table.{get, put, rows}
use shadow_relay.Store.Op.{Op, state, ◌>>=◌, ◌>>◌}
use shadow_relay.Store.Op.Ensures.{Ensures}
use shadow_relay.Store.Rows.{
  Slot, get_row, list_rows, put_row, insert_row, has, discard_row, remove, delete_row,
}

module _ {κ} {S V B : Type 0} {Q : B → S → Type κ} (t : Slot S V) where
  pub Ensures-get_row :
      (id : String) (f : V → Op S B) (s : S)
      → ((v : V) → get (t.view s) id ≡ some v → Ensures Q (f v s))
      → Ensures Q ((get_row t id >>= f) s)
  unfolding ◌>>=◌ get_row
  Ensures-get_row id f s h = elim (Option-cases (get (t.view s) id)) [
    | inl e ↦ rw (e, ◌>>=◌, get_row) (record { post = tt })
    | inr (v, e) ↦ rw (e, ◌>>=◌, get_row) (h v e)
  ]

  pub Ensures-list_rows :
      (f : List V → Op S B) (s : S)
      → Ensures Q (f (rows (t.view s)) s)
      → Ensures Q ((list_rows t >>= f) s)
  unfolding ◌>>=◌ list_rows
  Ensures-list_rows f s h = h

  pub Ensures-put_row :
      (id : String) (v : V) (k : Op S B) (s : S)
      → (t.admits s id v ≡ true → Ensures Q (k (t.update (put (t.view s) id v) s)))
      → Ensures Q ((put_row t id v >> k) s)
  unfolding ◌>>=◌ put_row
  Ensures-put_row id v k s h = elim (Bool-cases (t.admits s id v)) [
    | inl e ↦ rw (e, ◌>>=◌, put_row) (h e)
    | inr e ↦ rw (e, ◌>>=◌, put_row) (record { post = tt })
  ]

  pub Ensures-insert_row :
      (id : String) (v : V) (k : Op S B) (s : S)
      → (get (t.view s) id ≡ none
          → t.admits s id v ≡ true
          → Ensures Q (k (t.update (put (t.view s) id v) s)))
      → Ensures Q ((insert_row t id v >> k) s)
  unfolding ◌>>=◌ insert_row
  Ensures-insert_row id v k s h = elim (Option-cases (get (t.view s) id)) [
    | inr (w, e) ↦ rw (e, ◌>>=◌, insert_row) (record { post = tt })
    | inl e ↦ elim (Bool-cases (t.admits s id v)) [
      | inl y ↦ rw (e, y, ◌>>=◌, insert_row) (h e y)
      | inr n ↦ rw (e, n, ◌>>=◌, insert_row) (record { post = tt })
    ]
  ]

module _ {κ} {S V : Type 0} {Q : Unit → S → Type κ} (t : Slot S V) where
  pub Ensures_put_row_last :
      (id : String) (v : V) (s : S)
      → (t.admits s id v ≡ true → Q tt (t.update (put (t.view s) id v) s))
      → Ensures Q (put_row t id v s)
  unfolding put_row
  Ensures_put_row_last id v s h = elim (Bool-cases (t.admits s id v)) [
    | inl e ↦ rw (e, put_row) (record { post = h e })
    | inr e ↦ rw (e, put_row) (record { post = tt })
  ]

  pub Ensures_insert_row_last :
      (id : String) (v : V) (s : S)
      → (get (t.view s) id ≡ none
          → t.admits s id v ≡ true
          → Q tt (t.update (put (t.view s) id v) s))
      → Ensures Q (insert_row t id v s)
  unfolding insert_row
  Ensures_insert_row_last id v s h =
      elim (Bool-cases (not (has (t.view s) id) && t.admits s id v)) [
        | inl y ↦ rw (y, insert_row) (record { post = h (ground arith) (ground arith) })
        | inr n ↦ rw (n, insert_row) (record { post = tt })
      ]

module _ {κ} {S V : Type 0} {Q : V → S → Type κ} (t : Slot S V) where
  pub Ensures_get_row_last :
      (id : String) (s : S)
      → ((v : V) → get (t.view s) id ≡ some v → Q v s)
      → Ensures Q (get_row t id s)
  unfolding get_row
  Ensures_get_row_last id s h = elim (Option-cases (get (t.view s) id)) [
    | inl e ↦ rw (e, get_row) (record { post = tt })
    | inr (v, e) ↦ rw (e, get_row) (record { post = h v e })
  ]

module _ {κ} {S V : Type 0} {Q : Unit → S → Type κ} (t : Slot S V) where
  pub Ensures_discard_row :
      (id : String) (s : S)
      → Q tt (t.cascade id (t.update (remove (t.view s) id) s))
      → Ensures Q (discard_row t id s)
  unfolding discard_row
  Ensures_discard_row id s h = record { post = h }

module _ {κ} {S V B : Type 0} {Q : B → S → Type κ} (t : Slot S V) where
  pub Ensures-delete_row :
      (id : String) (k : Op S B) (s : S)
      → ((v : V)
          → get (t.view s) id ≡ some v
          → Ensures Q (k (t.cascade id (t.update (remove (t.view s) id) s))))
      → Ensures Q ((delete_row t id >> k) s)
  unfolding ◌>>=◌ delete_row
  Ensures-delete_row id k s h = elim (Option-cases (get (t.view s) id)) [
    | inl e ↦ rw (e, ◌>>=◌, delete_row) (record { post = tt })
    | inr (v, e) ↦ rw (e, ◌>>=◌, delete_row) (h v e)
  ]

  pub Ensures-discard_row :
      (id : String) (k : Op S B) (s : S)
      → Ensures Q (k (t.cascade id (t.update (remove (t.view s) id) s)))
      → Ensures Q ((discard_row t id >> k) s)
  unfolding ◌>>=◌ discard_row
  Ensures-discard_row id k s h = h

module _ {κ} {S V B : Type 0} (P : S → Type κ) (t : Slot S V) where
  pub Always-get_row :
      (id : String) (f : V → Op S B) (s : S)
      → P s
      → ((v : V) → get (t.view s) id ≡ some v → P (state (f v s)))
      → P (state ((get_row t id >>= f) s))
  unfolding ◌>>=◌ get_row
  Always-get_row id f s p h = elim (Option-cases (get (t.view s) id)) [
    | inl e ↦ rw (e, ◌>>=◌, get_row) p
    | inr (v, e) ↦ rw (e, ◌>>=◌, get_row) (h v e)
  ]
