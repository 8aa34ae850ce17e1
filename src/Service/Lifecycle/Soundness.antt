-- ===== src/Service/Lifecycle/Soundness.antt =====
-- SourceAction keeps every source and its revisions in order.
use mathlib.Core.Bool.{false≢true, not, false}
use shadow_relay.Prelude.{
  String, ◌≡◌, ◌≢◌, refl, some, arith, ◌==◌, eq_iff, if◌then◌else◌, Bool-cases, inl, inr,
}
use shadow_relay.Store.Table.{get, put, Table}
use shadow_relay.Store.Op.{state, ok, Op, write, ◌>>=◌, pure}
use shadow_relay.Store.Op.Ensures.{
  Ensures, Ensures-ok, Ensures-when, Ensures-guard, Ensures-bind, Ensures-err, write-keeps,
}
use shadow_relay.Store.Rows.Rules.{Ensures-get_row, Ensures-put_row, Ensures-insert_row}
use shadow_relay.Model.Source.{Source, Revision, approved, staged, rejected}
use shadow_relay.Model.Database.{Database, revisions, audits, sources}
use shadow_relay.Service.Draws.{Draws, audit}
use shadow_relay.Service.Sound.{
  SourceOk, Sound, IsSound, IsKeyed-get, Backed-put, Backed-here, Sound-change, Sound-put, get_own,
  Backed-differ, RefsOk,
}
use shadow_relay.Service.Lifecycle.{
  approved_source, approve, reject, act, source_action_tx, enable, release, Op, enabled_source,
}

-- Writing the source back at the end makes the database sound.
abbrev Settled : Draws → String → Source × String → Database → Type 0
Settled w id (u, done) d = Sound (put d.sources id (record u { updated_at = w.now })) d.revisions

-- The references of an approved source, whatever its health was.
approved-refs :
    (action : String) (r : Revision) (v : Source)
    → let u = approved_source action r v in
      (u.active_revision ≡ r.id)
      × (u.id ≡ v.id)
      × (u.staged_revision ≡ (if r.id == v.staged_revision then "" else v.staged_revision))
unfolding approved_source
approved-refs action r v = (ground arith, ground arith, ground arith)

enabled-refs :
    (v : Source)
    → let u = enabled_source v in
      (u.active_revision ≡ v.active_revision)
      × (u.id ≡ v.id)
      × (u.staged_revision ≡ v.staged_revision)
unfolding enabled_source
enabled-refs v = (ground arith, ground arith, ground arith)

approved-Ok :
    (t : Table Revision) (id action : String) (v : Source) (r q : Revision)
    → SourceOk t id v
    → r.id ≢ ""
    → q.status ≡ approved
    → q.source_id ≡ id
    → SourceOk (put t r.id q) id (approved_source action r v)
approved-Ok t id action v r q h ne st own =
    let (a, i, s) = approved-refs action r v in
    rw (a, i, s)
      (record {
        named = h.named;
        active = λ _. Backed-here t id approved r.id q st own;
        staged = λ n. elim (Bool-cases (r.id == v.staged_revision)) [
          | inl y ↦ absurd (n (rw y))
          | inr z ↦ rw z (
              Backed-put t id staged v.staged_revision r.id q
                (ground (arith, eq_iff r.id v.staged_revision)) (h.staged (ground arith)))
        ];
        live = λ _. ne;
      })

module _ (w : Draws) (id : String) where
  approve-Settled :
      (action revision : String) (v : Source) (d : Database)
      → IsSound d
      → get d.sources id ≡ some v
      → Ensures (Settled w id) (approve w id action revision v d)
  unfolding approve audit
  approve-Settled action revision v d h e = Ensures-guard _ _ _ d λ _.
      Ensures-get_row revisions _ _ d λ r f. Ensures-guard _ _ _ d λ own. Ensures-guard _ _ _ d λ _.
        Ensures-guard _ _ _ d λ _. Ensures-guard _ _ _ d λ _. Ensures-put_row revisions _ _ _ d λ _.
          let q = record r { status = approved } in
          let found = get_own d.revisions _ r h.keyed f in
          let here =
            approved-Ok d.revisions id action v r q (h.each id v e)
              (IsKeyed-get d.revisions r.id r h.keyed found).1 refl
              ((eq_iff r.source_id id).0 own) in
          let all =
            Sound-change d.sources d.revisions id
              (record (approved_source action r v) { updated_at = w.now }) r.id r q h found
              ((eq_iff r.source_id id).0 own) refl here in
          let d' : Database = record d { revisions = put d.revisions r.id q } in
          Ensures-when _ _ _ d' (λ _. Ensures-insert_row audits _ _ _ d' λ _ _. Ensures-ok _ _ all)
            (λ _. Ensures-ok _ _ all)

  reject-Settled :
      (v : Source) (d : Database)
      → IsSound d
      → get d.sources id ≡ some v
      → Ensures (λ u. Settled w id (u, "")) (reject v d)
  unfolding reject
  reject-Settled v d h e = Ensures-guard _ _ _ d λ some_staged.
      Ensures-get_row revisions _ _ d λ r f. Ensures-put_row revisions _ _ _ d λ _.
        let q = record r { status = rejected } in
        let old = h.each id v e in
        let (r', f', st, own) = old.staged (ground (arith, eq_iff v.staged_revision "")) in
        let found = get_own d.revisions _ r h.keyed f in
        let differs : r.status ≢ approved = ground arith in
        let mine : RefsOk (put d.revisions r.id q) id v.id v.active_revision "" v.enabled = record {
          named = old.named;
          active = λ n.
              let b = old.active n in
              Backed-put d.revisions id approved v.active_revision r.id q
                (Backed-differ d.revisions id approved v.active_revision r.id r found differs b) b;
          staged = λ n. absurd (n refl);
          live = old.live;
        } in
        Ensures-ok _ _
          (Sound-change d.sources d.revisions id _ r.id r q h found (ground arith) refl mine)

  -- The other actions leave the revisions alone.
  keep-Settled :
      (u : Source) (done : String) (d : Database)
      → IsSound d
      → SourceOk d.revisions id u
      → Ensures (Settled w id) (ok (u, done) d)
  keep-Settled u done d h ok_u = Ensures-ok _ _ (Sound-put d.sources d.revisions id _ h ok_u)

  kept-Settled :
      (u : Source) (d : Database)
      → IsSound d
      → SourceOk d.revisions id u
      → Ensures (λ x. Settled w id (x, "")) (ok u d)
  kept-Settled u d h ok_u = Ensures-ok _ _ (Sound-put d.sources d.revisions id _ h ok_u)

  enable-Settled :
      (v : Source) (d : Database)
      → IsSound d
      → get d.sources id ≡ some v
      → Ensures (λ u. Settled w id (u, "")) (enable v d)
  unfolding enable
  enable-Settled v d h e = Ensures-guard (not (v.active_revision == "")) _ _ d λ active.
      let old = h.each id v e in
      let (a, i, s) = enabled-refs v in
      let mine : SourceOk d.revisions id (enabled_source v) =
        rw (a, i, s)
          (record {
            named = old.named;
            active = old.active;
            staged = old.staged;
            live = λ _. ground (arith, eq_iff v.active_revision "");
          }) in
      kept-Settled (enabled_source v) d h mine

  act-Settled :
      (action revision : String) (v : Source) (d : Database)
      → IsSound d
      → get d.sources id ≡ some v
      → Ensures (Settled w id) (act w id action revision v d)
  unfolding act release
  act-Settled action revision v d h e =
      let old = h.each id v e in
      let off : RefsOk d.revisions id v.id v.active_revision v.staged_revision false = record {
        named = old.named;
        active = old.active;
        staged = old.staged;
        live = λ x. absurd (false≢true x);
      } in
      Ensures-when _ _ _ d (λ _. approve-Settled action revision v d h e)
        λ _.
          Ensures-when _ _ _ d (λ _. finish (reject v) (reject-Settled v d h e))
            λ _.
              Ensures-when _ _ _ d (λ _. finish (enable v) (enable-Settled v d h e))
                λ _.
                  Ensures-when _ _ _ d (λ _. keep-Settled _ action d h off)
                    λ _.
                      Ensures-when _ _ _ d (λ _. keep-Settled _ action d h old)
                        λ _.
                          Ensures-when _ _ _ d
                            (λ _.
                              finish (release v)
                                (Ensures-guard _ _ _ d λ _. kept-Settled _ d h old))
                            λ _. Ensures-err _ _
    where
      finish :
          (m : Op Database Source)
          → Ensures (λ u. Settled w id (u, "")) (m d)
          → Ensures (Settled w id) ((do u ← m; pure (u, action)) d)
      finish m s = Ensures-bind m _ d s λ u t k. Ensures-ok _ _ k

-- the transaction of every action on a source, whether it succeeds or fails, keeps the database
-- sound: the active revision of a source is an approved one of its own, its staged revision is a
-- staged one of its own, it stands under its own id, and it is enabled only with an active
-- revision.
pub source_action_tx-IsSound :
    (w : Draws) (id action revision : String)
    → (d : Database) → IsSound d
    → IsSound (state (write (source_action_tx w id action revision) d))
unfolding source_action_tx audit
source_action_tx-IsSound w id action revision d start = write-keeps IsSound _ d start λ h.
    Ensures-get_row sources _ _ d λ v e.
      Ensures-bind (act w id action revision v) _ d (act-Settled w id action revision v d h e)
        λ u t settled.
          Ensures-put_row sources _ _ _ t
            λ _. Ensures-insert_row audits _ _ _ _ λ _ _. Ensures-ok _ _ settled
