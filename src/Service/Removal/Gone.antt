-- ===== src/Service/Removal/Gone.antt =====
-- What is left of a source that was deleted, for good or softly, and what an undo brings back.
use shadow_relay.Prelude.{
  String, ◌≡◌, ◌≢◌, some, none, arith, false, Bool, [], ◌∷◌, any, ◌==◌, eq_iff,
}
use shadow_relay.Store.Table.{Table, get, remove_where, rows, get-remove}
use shadow_relay.Store.Op.{ok, write}
use shadow_relay.Store.Op.Ensures.{
  Ensures, Ensures-ok, Ensures-bind, Ensures-guard, Ensures-write, Ensures-result,
}
use shadow_relay.Store.Rows.Rules.{
  Ensures-get_row, Ensures-insert_row, Ensures-list_rows, Ensures-delete_row, Ensures-discard_row,
}
use shadow_relay.Model.Source.{Source, Revision, Endpoint, Probe}
use shadow_relay.Model.Publication.{SourceSet}
use shadow_relay.Model.Database.{Database, sources, audits, source_sets, secrets, cascade_source}
use shadow_relay.Service.Draws.{Draws, audit}
use shadow_relay.Service.Aggregates.{is_member, strip_membership}
use shadow_relay.Service.Removal.{is_used, delete_source_tx}
use shadow_relay.Service.Removal.Soundness.{strip_membership-Apart}

get-remove_where_kept :
    {V : Type 0} (p : V → Bool) (t : Table V) (k : String) (v : V)
    → get (remove_where p t) k ≡ some v
    → p v ≡ false
unfolding get remove_where
get-remove_where_kept p [] k v e = cc
get-remove_where_kept p ((j, u) ∷ t) k v e = ground (arith, get-remove_where_kept p t k v)

pub any-rows :
    (p : SourceSet → Bool) (t : Table SourceSet) (k : String) (s : SourceSet)
    → any p (rows t) ≡ false
    → get t k ≡ some s
    → p s ≡ false
unfolding get rows
any-rows p [] k s n e = cc
any-rows p ((j, u) ∷ t) k s n e = ground (arith, any-rows p t k s)

-- No set has the source.
abbrev pub IsNoMember : String → Database → Type 0
IsNoMember id t =
    (k : String) (s : SourceSet) → get t.source_sets k ≡ some s → is_member id s.members ≡ false

-- Nothing in the database is of the source.
pub record Gone (id : String) (t : Database) : Type 0 where
  pub source : get t.sources id ≡ none
  pub revisions : (k : String) (r : Revision) → get t.revisions k ≡ some r → r.source_id ≢ id
  pub endpoints : (k : String) (r : Endpoint) → get t.endpoints k ≡ some r → r.source_id ≢ id
  pub probes : (k : String) (r : Probe) → get t.probes k ≡ some r → r.source_id ≢ id
  pub secret : get t.secrets id ≡ none
  pub members : IsNoMember id t

differs : (x id : String) → (x == id) ≡ false → x ≢ id
differs x id n same = ground (arith, eq_iff x id)

deleted-Gone :
    (w : Draws) (id : String) (d : Database) → Ensures (λ _ t. Gone id t) (delete_source_tx w id d)
unfolding delete_source_tx audit cascade_source is_used
deleted-Gone w id d = Ensures-get_row sources _ _ d λ v _.
    Ensures-bind (strip_membership w id) _ d (strip_membership-Apart w id d) λ _ d1 _.
      Ensures-list_rows source_sets _ d1 (
        Ensures-guard _ _ _ d1 λ unused. Ensures-delete_row sources _ _ d1 λ _ _.
          Ensures-discard_row secrets _ _ _ (
            Ensures-insert_row audits _ _ _ _ λ _ _. Ensures-ok _ _ (record {
              source = ground (arith, get-remove d1.sources id id, eq_iff id id);
              revisions =
                  λ k r f. differs r.source_id id (get-remove_where_kept _ d1.revisions k r f);
              endpoints =
                  λ k r f. differs r.source_id id (get-remove_where_kept _ d1.endpoints k r f);
              probes = λ k r f. differs r.source_id id (get-remove_where_kept _ d1.probes k r f);
              secret = ground (arith, get-remove d1.secrets id id, eq_iff id id);
              members = λ k s f.
                  any-rows (λ s. is_member id s.members) d1.source_sets k s (ground arith) f;
            })))

-- where deleting a source for good succeeds, no row of the source, its revisions, endpoints,
-- probes or credentials is left, and no set has it as a member.
pub delete_source_tx-Gone :
    (w : Draws) (id : String) (d t : Database) (v : Source)
    → write (delete_source_tx w id) d ≡ ok v t
    → Gone id t
delete_source_tx-Gone w id d t v e = Ensures-result _ (Ensures-write _ d (deleted-Gone w id d)) e
