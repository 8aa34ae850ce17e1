-- ===== src/Service/Catalogs/Accepted.antt =====
-- Accepting a candidate keeps the sources in order, and what was accepted stays accepted.
use shadow_relay.Prelude.{
  ℕ, suc, String, Bool, false, some, List, [], ◌∷◌, ◌==◌, arith, ◌≡◌, ◌≢◌, refl, sym, ◌∙◌,
}
use mathlib.Core.Bool.{false≢true}
use shadow_relay.Store.Table.{get_functional, get, put, get-put_other}
use shadow_relay.Store.Op.{state, write}
use shadow_relay.Store.Op.Ensures.{
  Ensures, Ensures-ok, Ensures-bind, Ensures-when, Ensures-guard, write-keeps,
}
use shadow_relay.Store.Op.Always.{Always-when, Always-guard, Always-quiet}
use shadow_relay.Store.Rows.Rules.{
  Ensures-get_row, Ensures-put_row, Ensures-insert_row, Ensures-list_rows, Ensures_insert_row_last,
  Always-get_row,
}
use shadow_relay.Adapter.Difference.{Reader}
use shadow_relay.Model.Source.{Source, Item, Normalized}
use shadow_relay.Model.Catalog.{Catalog, Candidate, accepted}
use shadow_relay.Model.Database.{
  Database, catalogs, candidates, sources, revisions, endpoints, audits,
}
use shadow_relay.Service.Draws.{Draws, audit, new_id, new_id-ne}
use shadow_relay.Service.Sound.{IsSound, SourceOk, Sound-add}
use shadow_relay.Service.Intake.{Site, SourceInput, first_revision, new_source}
use shadow_relay.Service.Intake.Soundness.{new_source-Ok}
use shadow_relay.Service.Preview.{World}
use shadow_relay.Service.Preview.Soundness.{defaults-quiet, preview-quiet, require-quiet}
use shadow_relay.Service.Sync.{Fetched}
use shadow_relay.Service.Catalogs.{
  CatalogReader, candidate_of, add_candidates, sync_catalog_tx, mark_candidate_tx,
  accept_candidate_tx, candidate_action, is_accepted,
}

accept_candidate_tx-IsSound :
    (rd : Reader) (w : Draws) (id : String) (c : Candidate) (cat : Catalog) (i : SourceInput)
    → (hash : String) (n : Normalized) (d : Database) → IsSound d
    → IsSound (state (write (accept_candidate_tx rd w id c cat i hash n) d))
unfolding accept_candidate_tx audit new_source
accept_candidate_tx-IsSound rd w id c cat i hash n d start = write-keeps IsSound _ d start λ h.
    let rev = first_revision rd w (new_id w "src" 0) hash n in
    let src : Source = record (new_source w i n) {
      catalog_id = cat.id;
      staged_revision = rev.id;
    } in
    let here : SourceOk (put d.revisions rev.id rev) src.id src =
      new_source-Ok rd w src hash n d refl refl refl in
    Ensures-get_row candidates _ _ d λ v _. Ensures-guard _ _ _ d λ _.
      Ensures-insert_row sources _ _ _ d λ _ _. Ensures-insert_row revisions _ _ _ _ λ fresh _.
        Ensures-insert_row endpoints _ _ _ _ λ _ _. Ensures-put_row candidates _ _ _ _ λ _.
          Ensures_insert_row_last audits _ _ _ λ _ _.
            Sound-add d.sources d.revisions src.id src rev.id rev h fresh (new_id-ne w "rev" 1) refl
              here

mark_candidate_tx-IsSound :
    (w : Draws) (id action : String) (d : Database)
    → IsSound d
    → IsSound (state (write (mark_candidate_tx w id action) d))
unfolding mark_candidate_tx audit
mark_candidate_tx-IsSound w id action d start = write-keeps IsSound _ d start λ h.
    Ensures-get_row candidates _ _ d λ v _.
      Ensures-guard _ _ _ d
        λ _. Ensures-put_row candidates _ _ _ d λ _. Ensures_insert_row_last audits _ _ _ λ _ _. h

-- The actions read a candidate and a catalog, and write in one transaction.
module _ {κ} (P : Database → Type κ) (site : Site) (world : World) (rd : Reader) (w : Draws)
    (id action : String) (d : Database) where
  candidate_action-keeps :
      P d
      → ((c : Candidate) (cat : Catalog) (i : SourceInput) (hash : String) (n : Normalized)
          → is_accepted c.status ≡ false
          → P (state (write (accept_candidate_tx rd w id c cat i hash n) d)))
      → P (state (write (mark_candidate_tx w id action) d))
      → P (state (candidate_action site world rd w id action d))
  unfolding candidate_action
  candidate_action-keeps h accepting marking = Always-get_row P candidates id _ d h λ c _.
      Always-when P _ _ _ d
        (λ _. Always-guard P _ _ _ d h λ closed.
          Always-get_row P catalogs c.catalog_id _ d h λ cat _.
            Always-quiet P _ _ d h (defaults-quiet site.urls _ d) λ i.
              Always-quiet P _ _ d h (preview-quiet world site i d) λ x.
                Always-quiet P _ _ d h (require-quiet (world.snapshot x.1) d)
                  λ hash. accepting c cat i hash x.0 (ground arith))
        λ _. Always-guard P _ _ _ d h λ _. marking

-- every action on a candidate, with its network and its parser, keeps the database sound, whether
-- it succeeds or fails.
pub candidate_action-IsSound :
    (site : Site) (world : World) (rd : Reader) (w : Draws) (id action : String)
    → (d : Database) → IsSound d
    → IsSound (state (candidate_action site world rd w id action d))
candidate_action-IsSound site world rd w id action d h =
    candidate_action-keeps IsSound site world rd w id action d h
      (λ c cat i hash n _. accept_candidate_tx-IsSound rd w id c cat i hash n d h)
      (mark_candidate_tx-IsSound w id action d h)

-- The candidate `k` is accepted, and its source is `s`.
pub record Accepted (k s : String) (d : Database) : Type 0 where
  pub candidate : Candidate
  pub row : get d.candidates k ≡ some candidate
  pub status : candidate.status ≡ accepted
  pub source : candidate.source_id ≡ s

-- A write under another id, or to a table of its own, keeps it.
Accepted-put :
    (k s id : String) (v : Candidate) (d t : Database)
    → Accepted k s d
    → t.candidates ≡ put d.candidates id v
    → id ≢ k
    → Accepted k s t
Accepted-put k s id v d t h e ne = record {
  candidate = h.candidate;
  row = rw e (get-put_other d.candidates id k v ne ∙ h.row);
  status = h.status;
  source = h.source;
}

-- A candidate that is not accepted is another one.
not-Accepted :
    (k s id : String) (v : Candidate) (d : Database)
    → Accepted k s d
    → get d.candidates id ≡ some v
    → is_accepted v.status ≡ false
    → id ≢ k
not-Accepted k s id v d h e n same =
    let same_row : v ≡ h.candidate =
      get_functional d.candidates k v h.candidate (rw (← same) e) h.row in
    false≢true (sym n ∙ rw (same_row, h.status) refl)

module _ (k s : String) where
  mark_candidate_tx-Accepted :
      (w : Draws) (id action : String) (d : Database)
      → Accepted k s d
      → Accepted k s (state (write (mark_candidate_tx w id action) d))
  unfolding mark_candidate_tx audit
  mark_candidate_tx-Accepted w id action d start = write-keeps (Accepted k s) _ d start λ h.
      Ensures-get_row candidates _ _ d λ v e. Ensures-guard _ _ _ d λ other.
        Ensures-put_row candidates _ _ _ d λ _.
          Ensures_insert_row_last audits _ _ _
            λ _ _. Accepted-put k s id _ d _ h refl (not-Accepted k s id v d h e (ground arith))

  accept_candidate_tx-Accepted :
      (rd : Reader) (w : Draws) (id : String) (c : Candidate) (cat : Catalog) (i : SourceInput)
      → (hash : String) (n : Normalized) (d : Database) → is_accepted c.status ≡ false
      → Accepted k s d
      → Accepted k s (state (write (accept_candidate_tx rd w id c cat i hash n) d))
  unfolding accept_candidate_tx audit
  accept_candidate_tx-Accepted rd w id c cat i hash n d free start =
      write-keeps (Accepted k s) _ d start λ h. Ensures-get_row candidates _ _ d λ v e.
        Ensures-guard _ _ _ d λ same. Ensures-insert_row sources _ _ _ d λ _ _.
          Ensures-insert_row revisions _ _ _ _ λ _ _. Ensures-insert_row endpoints _ _ _ _ λ _ _.
            Ensures-put_row candidates _ _ _ _ λ _. Ensures_insert_row_last audits _ _ _ λ _ _.
              Accepted-put k s id _ d _ h refl
                (not-Accepted k s id v d h e (ground (arith, free, same)))

  add_candidates-Accepted :
      (rd : CatalogReader) (w : Draws) (id : String) (tvbox : Bool) (n : ℕ) (known : List String)
      → (items : List Item) (d : Database) → Accepted k s d
      → Ensures (λ _ t. Accepted k s t) (add_candidates rd w id tvbox n known items d)
  unfolding add_candidates
  add_candidates-Accepted rd w id tvbox n known [] d h = Ensures-ok _ _ h
  add_candidates-Accepted rd w id tvbox n known (item ∷ items) d h =
      Ensures-when _ _ _ d (λ _. add_candidates-Accepted rd w id tvbox n known items d h)
        λ _. Ensures-insert_row candidates _ _ _ d λ fresh _.
          add_candidates-Accepted rd w id tvbox (suc n) (rd.hash item.url ∷ known) items _ (
            Accepted-put k s (new_id w "candidate" n) (candidate_of rd w id n tvbox item) d _ h refl
              λ same. ground (arith, fresh, h.row, same))

  sync_catalog_tx-Accepted :
      (rd : CatalogReader) (w : Draws) (id : String) (cat : Catalog) (res : Fetched)
      → (n : Normalized) (d : Database) → Accepted k s d
      → Accepted k s (state (write (sync_catalog_tx rd w id cat res n) d))
  unfolding sync_catalog_tx audit
  sync_catalog_tx-Accepted rd w id cat res n d start = write-keeps (Accepted k s) _ d start λ h.
      Ensures-get_row catalogs _ _ d λ c _. Ensures-guard _ _ _ d λ _.
        Ensures-list_rows candidates _ d (
          Ensures-bind _ _ d
            (add_candidates-Accepted rd w id (n.protocol == "tvbox") 0 _ n.items d h)
            λ m t u. Ensures-put_row catalogs _ _ _ t λ _.
              Ensures_insert_row_last audits _ _ _ λ _ _. record {
                candidate = u.candidate;
                row = u.row;
                status = u.status;
                source = u.source;
              })

-- What happens to the candidates: the end of a sync, or an action of the operator.
pub data CandidateStep : Type 0 where
  sync : CatalogReader → Draws → String → Catalog → Fetched → Normalized → CandidateStep
  action : Site → World → Reader → Draws → String → String → CandidateStep

unfoldable pub candidate_step : CandidateStep → Database → Database
candidate_step (sync rd w id cat res n) d = state (write (sync_catalog_tx rd w id cat res n) d)
candidate_step (action site world rd w id a) d = state (candidate_action site world rd w id a d)

unfoldable pub candidate_steps : List CandidateStep → Database → Database
candidate_steps [] d = d
candidate_steps (x ∷ xs) d = candidate_steps xs (candidate_step x d)

-- through any sequence of syncs of catalogs and actions on candidates, a candidate that is
-- accepted stays accepted, with the source that it was accepted as.
pub candidate_steps-Accepted :
    (k s : String) (xs : List CandidateStep) (d : Database)
    → Accepted k s d
    → Accepted k s (candidate_steps xs d)
unfolding candidate_steps candidate_step
candidate_steps-Accepted k s [] d h = h
candidate_steps-Accepted k s (sync rd w id cat res n ∷ xs) d h =
    candidate_steps-Accepted k s xs _ (sync_catalog_tx-Accepted k s rd w id cat res n d h)
candidate_steps-Accepted k s (action site world rd w id a ∷ xs) d h =
    candidate_steps-Accepted k s xs _ (
      candidate_action-keeps (Accepted k s) site world rd w id a d h
        (λ c cat i hash n free. accept_candidate_tx-Accepted k s rd w id c cat i hash n d free h)
        (mark_candidate_tx-Accepted k s w id a d h))
