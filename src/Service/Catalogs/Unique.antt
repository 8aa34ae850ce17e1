-- ===== src/Service/Catalogs/Unique.antt =====
-- No catalog has two candidates with one fingerprint, however often it is synced.
use shadow_relay.Prelude.{
  ℕ, suc, String, Bool, true, some, List, [], ◌∷◌, ◌==◌, eq_iff, arith, ◌≡◌, ◌≢◌, refl, sym, ap,
  contains,
}
use shadow_relay.Store.Table.{Table, get, put, rows, put_cases}
use shadow_relay.Store.Op.{state, write}
use shadow_relay.Store.Op.Ensures.{
  Ensures, Ensures-ok, Ensures-bind, Ensures-when, Ensures-guard, write-keeps,
}
use shadow_relay.Store.Rows.Rules.{
  Ensures-get_row, Ensures-put_row, Ensures-insert_row, Ensures-list_rows, Ensures_insert_row_last,
}
use shadow_relay.Model.Source.{Item, Normalized}
use shadow_relay.Model.Catalog.{Catalog, Candidate}
use shadow_relay.Model.Database.{Database, catalogs, candidates, audits}
use shadow_relay.Service.Draws.{Draws, audit, new_id}
use shadow_relay.Service.Sync.{Fetched}
use shadow_relay.Service.Catalogs.{
  CatalogReader, known_of, candidate_of, add_candidates, sync_catalog_tx, mark_candidate_tx,
}

abbrev SameEntry : Candidate → Candidate → Type 0
SameEntry a b = (a.catalog_id ≡ b.catalog_id) × (a.fingerprint ≡ b.fingerprint)

-- Two candidates of a catalog differ in their fingerprints.
pub record Unique (t : Table Candidate) : Type 0 where
  pub each :
      (k j : String) (a b : Candidate) → get t k ≡ some a → get t j ≡ some b → SameEntry a b → k ≡ j

-- A row that shares its entry with no other row may be written.
Unique-put :
    (t : Table Candidate) (k : String) (v : Candidate)
    → Unique t
    → ((j : String) (b : Candidate) → k ≢ j → get t j ≡ some b → ¬ SameEntry v b)
    → Unique (put t k v)
Unique-put t k v h alone = record {
  each = λ k' j' a' b' e' f' same'.
      put_cases
        (λ i a. (j : String) (b : Candidate) → get (put t k v) j ≡ some b → SameEntry a b → i ≡ j) t
        k v
        (put_cases (λ j b. SameEntry v b → k ≡ j) t k v (λ _. refl)
          λ j b ne e same. absurd (alone j b ne e same))
        (λ i a ne e.
          put_cases (λ j b. SameEntry a b → i ≡ j) t k v
            (λ same. absurd (alone i a ne e (sym same.0, sym same.1)))
            (λ j b _ f same. h.each i j a b e f same))
        k' a' e' j' b' f' same';
}

-- The fingerprints of the catalog are all among those seen.
abbrev Covers : String → List String → Table Candidate → Type 0
Covers id known t =
    (k : String) (c : Candidate)
    → get t k ≡ some c
    → c.catalog_id ≡ id
    → contains known c.fingerprint ≡ true

known_of-Covers : (id : String) (t : Table Candidate) → Covers id (known_of id (rows t)) t
unfolding known_of rows get
known_of-Covers id [] k c e own = cc
known_of-Covers id ((j, b) ∷ t) k c e own = ground (
  arith,
  known_of-Covers id t k c,
  eq_iff j k,
  eq_iff b.catalog_id id,
  eq_iff b.fingerprint c.fingerprint,
)

module _ (rd : CatalogReader) (w : Draws) (id : String) where
  add_candidates-Unique :
      (tvbox : Bool) (n : ℕ) (known : List String) (items : List Item) (d : Database)
      → Unique d.candidates
      → Covers id known d.candidates
      → Ensures (λ _ t. Unique t.candidates) (add_candidates rd w id tvbox n known items d)
  unfolding add_candidates
  add_candidates-Unique tvbox n known [] d h cover = Ensures-ok _ _ h
  add_candidates-Unique tvbox n known (item ∷ items) d h cover =
      let v = candidate_of rd w id n tvbox item in
      let fp = rd.hash item.url in
      Ensures-when _ _ _ d (λ _. add_candidates-Unique tvbox n known items d h cover)
        λ new. Ensures-insert_row candidates _ _ _ d λ fresh _.
          add_candidates-Unique tvbox (suc n) (fp ∷ known) items
            (record d { candidates = put d.candidates (new_id w "candidate" n) v })
            (Unique-put d.candidates (new_id w "candidate" n) v h λ j b _ e same.
              let seen = cover j b e (sym same.0) in
              ground (arith, new, seen, same.1, ap (contains known) same.1))
            (put_cases (λ k c. c.catalog_id ≡ id → contains (fp ∷ known) c.fingerprint ≡ true)
              d.candidates (new_id w "candidate" n) v (λ _. ground (arith, eq_iff fp fp))
              λ j c _ e own. ground (arith, cover j c e own))

  -- the transaction of a sync of a catalog, whether it succeeds or fails, keeps the fingerprints
  -- of the candidates of each catalog apart: two candidates of one catalog with one fingerprint
  -- are the same row.
  pub sync_catalog_tx-Unique :
      (cat : Catalog) (res : Fetched) (n : Normalized) (d : Database)
      → Unique d.candidates
      → Unique (state (write (sync_catalog_tx rd w id cat res n) d)).candidates
  unfolding sync_catalog_tx audit
  sync_catalog_tx-Unique cat res n d start =
      write-keeps (λ t. Unique t.candidates) _ d start
        λ h. Ensures-get_row catalogs _ _ d λ c _. Ensures-guard _ _ _ d λ _.
          Ensures-list_rows candidates _ d (
            Ensures-bind _ _ d
              (add_candidates-Unique (n.protocol == "tvbox") 0 _ n.items d h
                (known_of-Covers id d.candidates))
              λ m t u.
                Ensures-put_row catalogs _ _ _ t λ _. Ensures_insert_row_last audits _ _ _ λ _ _. u)

-- the other actions on candidates keep them apart too.
pub mark_candidate_tx-Unique :
    (w : Draws) (id action : String) (d : Database)
    → Unique d.candidates
    → Unique (state (write (mark_candidate_tx w id action) d)).candidates
unfolding mark_candidate_tx audit
mark_candidate_tx-Unique w id action d start =
    write-keeps (λ t. Unique t.candidates) _ d start
      λ h. Ensures-get_row candidates _ _ d λ v e. Ensures-guard _ _ _ d λ _.
        Ensures-put_row candidates _ _ _ d λ _.
          Ensures_insert_row_last audits _ _ _
            λ _ _. Unique-put d.candidates id _ h λ j b ne f same. ne (h.each id j v b e f same)
