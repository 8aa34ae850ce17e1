-- ===== src/Service/Visibility/Soundness.antt =====
-- The aggregates that follow a change leave the sources and their revisions alone, so that the
-- whole of SourceAction, DeleteSource and SoftDeleteSource keeps them in order.
use shadow_relay.Service.Visibility.{
  Relay, retry_later, publish_members, ensure_aggregate_published, sync_aggregate_after_visibility,
  source_action, delete_source, soft_delete_source,
}
use shadow_relay.Service.Lifecycle.Soundness.{source_action_tx-IsSound}
use shadow_relay.Store.Op.Always.{Always-bind, Always-when, Always-rescue}
use shadow_relay.Prelude.{
  ℕ, suc, String, Bool, List, [], ◌∷◌, ◌≡◌, refl, ◌∙◌, Option-cases, inl, inr, false,
}
use shadow_relay.Store.Table.{Table, get}
use shadow_relay.Store.Op.{Op, state, write, ◌>>=◌, Error}
use shadow_relay.Store.Op.Ensures.{
  Ensures, Ensures-ok, Ensures-err, Ensures-when, Ensures-guard, Ensures-bind, Ensures-weaken,
  write-keeps,
}
use shadow_relay.Store.Rows.Rules.{
  Ensures-get_row, Ensures-put_row, Ensures-insert_row, Ensures-list_rows, Ensures_insert_row_last,
  Ensures_get_row_last, Always-get_row,
}
use shadow_relay.Model.Source.{Source}
use shadow_relay.Model.Publication.{Member, SourceSet}
use shadow_relay.Model.Database.{
  Database, source_sets, publications, bindings, secrets, audits, jobs,
}
use shadow_relay.Service.Draws.{Draws, audit}
use shadow_relay.Service.Platform.{Platform}
use shadow_relay.Service.Sound.{IsSound}
use shadow_relay.Service.Selection.{Selected, sort_members}
use shadow_relay.Service.Selection.Gathering.{gather_lem}
use shadow_relay.Service.Publishing.{
  Encoding, withdraw, nothing_to_publish, release_publication, publish_items,
  prepare_publication_tx, prepare_publication,
}
use shadow_relay.Service.Publishing.Safety.{CompiledFrom, compile_lem}
use shadow_relay.Service.Buckets.{Bucket}
use shadow_relay.Service.Jobs.{enqueue, enqueue_job, add_job, active_job, find_active}
use shadow_relay.Service.Jobs.Steps.{check_target-reads}
use shadow_relay.Service.Aggregates.{
  create_set, ensure_set, ensure_binding, upsert_tx, upsert_aggregate_member,
}
use shadow_relay.Service.Leaving.{
  remove_sets, remove_from_aggregates_tx, remove_from_aggregates, withdraw_aggregate_tx,
  withdraw_aggregate,
}
use shadow_relay.Service.Intake.Reads.{Apart}
use shadow_relay.Service.Removal.Soundness.{
  strip_membership-Apart, delete_source_tx-IsSound, soft_delete_tx-IsSound,
}

-- Two steps that leave sources, revisions and runtimes alone.
Apart-bind :
    {A B : Type 0} (m : Op Database A) (f : A → Op Database B) (d : Database)
    → Ensures (Apart d) (m d)
    → ((a : A) (t : Database) → Ensures (Apart t) (f a t))
    → Ensures (Apart d) ((m >>= f) d)
Apart-bind m f d h k =
    Ensures-bind m f d h λ a t e. Ensures-weaken (k a t) λ _ u g. (g.0 ∙ e.0, g.1 ∙ e.1, g.2 ∙ e.2)

-- A transaction of such steps keeps the database sound.
Apart-IsSound :
    {A : Type 0} (m : Op Database A) (d : Database)
    → Ensures (Apart d) (m d)
    → IsSound d
    → IsSound (state (write m d))
Apart-IsSound m d apart start =
    write-keeps IsSound m d start λ h. Ensures-weaken apart λ _ t e. rw (e.0, e.1) h

abbrev same : (d : Database) → Apart {A = Unit {0}} d tt d
same d = (refl, refl, refl)

module _ (enc : Encoding) (w : Draws) (s : SourceSet) (d : Database) where
  withdraw-Apart : (ex : Table String) → Ensures (Apart d) (withdraw enc w s ex d)
  unfolding withdraw audit
  withdraw-Apart ex = Ensures-insert_row publications _ _ _ d λ _ _.
      Ensures-put_row source_sets _ _ _ _
        λ _. Ensures-insert_row audits _ _ _ _ λ _ _. Ensures-ok _ _ (refl, refl, refl)

  nothing-Apart :
      (ex : Table String) (automatic preview : Bool)
      → Ensures (Apart d) (nothing_to_publish enc w s ex automatic preview d)
  unfolding nothing_to_publish
  nothing-Apart ex automatic preview =
      Ensures-when _ _ _ d (λ _. withdraw-Apart ex)
        λ _.
          Ensures-when _ _ _ d
            (λ _. Ensures_get_row_last publications _ d λ p f. (refl, refl, refl))
            λ _. Ensures-err _ _

  release-Apart :
      (k : String) (ms : List Member) (items : List Selected) (ex : Table String) (preview : Bool)
      → Ensures (Apart d) (release_publication enc w k s ms items ex preview d)
  unfolding release_publication audit
  release-Apart k ms items ex preview =
      Ensures-bind {P = λ p t. (t ≡ d) × CompiledFrom items ex s.id p} _ _ d
        (compile_lem enc w s items ex d)
        λ p t (e, made). rw e (
          Ensures-when preview _ _ d (λ _. Ensures-ok _ _ (refl, refl, refl))
            λ _. Ensures-insert_row publications _ _ _ d λ _ _.
              Ensures-put_row source_sets _ _ _ _
                λ _. Ensures-insert_row audits _ _ _ _ λ _ _. Ensures-ok _ _ (refl, refl, refl))

prepare_publication-IsSound :
    (enc : Encoding) (w : Draws) (id : String) (automatic preview : Bool) (d : Database)
    → IsSound d
    → IsSound (state (prepare_publication enc w id automatic preview d))
unfolding prepare_publication prepare_publication_tx publish_items
prepare_publication-IsSound enc w id automatic preview d h =
    Apart-IsSound _ d
      (Ensures-get_row source_sets _ _ d λ s row.
        Ensures-bind {P = λ r t. t ≡ d} _ _ d
          (Ensures-weaken (gather_lem d (sort_members s.members)) λ r t q. q.0)
          λ r t e. rw e (
            Ensures-when _ _ _ d (λ _. nothing-Apart enc w s d _ automatic preview)
              λ _. Ensures-guard _ _ _ d λ _.
                Ensures-when _ _ _ d
                  (λ _. Ensures_get_row_last publications _ d λ p f. (refl, refl, refl))
                  λ _. release-Apart enc w s d id _ _ _ preview))
      h

withdraw_aggregate-IsSound :
    (enc : Encoding) (w : Draws) (id : String) (d : Database)
    → IsSound d
    → IsSound (state (withdraw_aggregate enc w id d))
unfolding withdraw_aggregate withdraw_aggregate_tx audit
withdraw_aggregate-IsSound enc w id d h =
    Apart-IsSound _ d
      (Ensures-get_row source_sets _ _ d λ s row.
        Ensures-when _ _ _ d (λ _. Ensures-ok _ _ (refl, refl, refl))
          λ _.
            Ensures-when _ _ _ d (λ _. Ensures-ok _ _ (refl, refl, refl))
              λ _. Ensures-insert_row publications _ _ _ d λ _ _.
                Ensures-put_row source_sets _ _ _ _
                  λ _. Ensures_insert_row_last audits _ _ _ λ _ _. (refl, refl, refl))
      h

active_job-Apart :
    (kind target : String) (d : Database) → Ensures (Apart d) (active_job kind target d)
unfolding active_job
active_job-Apart kind target d = elim (Option-cases (find_active d.jobs kind target)) [
  | inl e ↦ rw (active_job, e) (Ensures-err _ _)
  | inr (j, e) ↦ rw (active_job, e) (Ensures-ok _ _ (refl, refl, refl))
]

enqueue_job-IsSound :
    (w : Draws) (kind target : String) (d : Database)
    → IsSound d
    → IsSound (state (enqueue_job w kind target d))
unfolding enqueue_job enqueue add_job
enqueue_job-IsSound w kind target d h =
    Apart-IsSound _ d
      (Apart-bind _ _ d
        (Ensures-bind _ _ d (check_target-reads kind target d) λ _ t e. rw e (
          Ensures-when _ _ _ d (λ _. Ensures-ok _ _ (refl, refl, refl))
            λ _. Ensures_insert_row_last jobs _ _ d λ _ _. (refl, refl, refl)))
        λ _ t. active_job-Apart kind target t)
      h

ensure_set-Apart :
    (w : Draws) (def : Bucket) (d : Database) → Ensures (Apart d) (ensure_set w def d)
unfolding ensure_set create_set audit
ensure_set-Apart w def d = elim (Option-cases (get d.source_sets def.slug)) [
  | inr (s, e) ↦ rw (ensure_set, e) (Ensures-ok _ _ (refl, refl, refl))
  | inl e ↦
      rw (ensure_set, e)
        (Ensures-put_row source_sets _ _ _ d
          λ _. Ensures-insert_row audits _ _ _ _ λ _ _. Ensures-ok _ _ (refl, refl, refl))
]

ensure_binding-Apart :
    (pf : Platform) (w : Draws) (century id : String) (d : Database)
    → Ensures (Apart d) (ensure_binding pf w century id d)
unfolding ensure_binding audit
ensure_binding-Apart pf w century id d =
    Ensures-when _ _ _ d (λ _. Ensures-ok _ _ (refl, refl, refl))
      λ _. Ensures-insert_row bindings _ _ _ d λ _ _.
        Ensures-put_row secrets _ _ _ _
          λ _. Ensures_insert_row_last audits _ _ _ λ _ _. (refl, refl, refl)

upsert_aggregate_member-IsSound :
    (to_lower : String → String) (pf : Platform) (w : Draws) (century : String) (v : Source)
    → (d : Database) → IsSound d
    → IsSound (state (upsert_aggregate_member to_lower pf w century v d))
unfolding upsert_aggregate_member upsert_tx audit
upsert_aggregate_member-IsSound to_lower pf w century v d h =
    Apart-IsSound _ d
      (Apart-bind _ _ d (strip_membership-Apart w v.id d) λ _ d1.
        Apart-bind _ _ d1 (ensure_set-Apart w _ d1) λ s d2.
          Ensures-put_row source_sets _ _ _ d2 λ _.
            Ensures-insert_row audits _ _ _ _
              λ _ _. Ensures-weaken (ensure_binding-Apart pf w century _ _) λ _ t e. e)
      h

remove_sets-Apart :
    (w : Draws) (sid : String) (n : ℕ) (touched : String) (ss : List SourceSet) (d : Database)
    → Ensures (Apart d) (remove_sets w sid n touched ss d)
unfolding remove_sets audit
remove_sets-Apart w sid n touched [] d = Ensures-ok _ _ (refl, refl, refl)
remove_sets-Apart w sid n touched (s ∷ ss) d =
    Ensures-when _ _ _ d
      (λ _.
        Ensures-put_row source_sets _ _ _ d
          λ _. Ensures-insert_row audits _ _ _ _ λ _ _. remove_sets-Apart w sid (suc n) s.id ss _)
      λ _. remove_sets-Apart w sid n touched ss d

remove_from_aggregates-IsSound :
    (w : Draws) (sid : String) (d : Database)
    → IsSound d
    → IsSound (state (remove_from_aggregates w sid d))
unfolding remove_from_aggregates remove_from_aggregates_tx
remove_from_aggregates-IsSound w sid d h =
    Apart-IsSound _ d (Ensures-list_rows source_sets _ d (remove_sets-Apart w sid 0 "" _ d)) h

module _ (relay : Relay) where
  retry_later-IsSound :
      (n : ℕ) (id : String) (e : Error) (d : Database)
      → IsSound d
      → IsSound (state (retry_later relay n id e d))
  unfolding retry_later
  retry_later-IsSound n id e d h =
      Always-when IsSound _ _ _ d (λ _. h)
        λ _.
          Always-bind IsSound _ _ d
            (Always-rescue IsSound _ _ d (enqueue_job-IsSound (relay.draws n) "set.publish" id d h)
              λ x t k. k)
            λ j t _ k. k

  publish_members-IsSound :
      (n : ℕ) (id : String) (d : Database)
      → IsSound d
      → IsSound (state (publish_members relay n id d))
  unfolding publish_members
  publish_members-IsSound n id d h =
      Always-rescue IsSound _ _ d
        (Always-bind IsSound _ _ d
          (prepare_publication-IsSound relay.encoding (relay.draws n) id false false d h)
          λ p t _ k. k)
        λ e t k. retry_later-IsSound (suc n) id e t k

  pub ensure_aggregate_published-IsSound :
      (n : ℕ) (type : String) (d : Database)
      → IsSound d
      → IsSound (state (ensure_aggregate_published relay n type d))
  unfolding ensure_aggregate_published
  ensure_aggregate_published-IsSound n type d h =
      Always-bind IsSound _ _ d
        (Always-rescue IsSound _ _ d (Always-get_row IsSound source_sets _ _ d h λ s _. h)
          λ e t k. Always-when IsSound _ _ _ t (λ _. k) λ _. k)
        λ empty t _ k.
          Always-when IsSound _ _ _ t
            (λ _. withdraw_aggregate-IsSound relay.encoding (relay.draws n) _ t k)
            λ _. Always-when IsSound _ _ _ t (λ _. publish_members-IsSound n _ t k) λ _. k

  sync_aggregate_after_visibility-IsSound :
      (n : ℕ) (v : Source) (action : String) (d : Database)
      → IsSound d
      → IsSound (state (sync_aggregate_after_visibility relay n v action d))
  unfolding sync_aggregate_after_visibility
  sync_aggregate_after_visibility-IsSound n v action d h =
      Always-when IsSound _ _ _ d
        (λ _.
          Always-bind IsSound _ _ d
            (upsert_aggregate_member-IsSound relay.to_lower relay.platform (relay.draws n)
              relay.century v d h)
            λ _ t _ k. ensure_aggregate_published-IsSound (suc n) _ t k)
        λ _.
          Always-when IsSound _ _ _ d
            (λ _.
              Always-bind IsSound _ _ d (remove_from_aggregates-IsSound (relay.draws n) v.id d h)
                λ set t _ k.
                  Always-when IsSound _ _ _ t (λ _. k)
                    λ _. ensure_aggregate_published-IsSound (suc n) _ t k)
            λ _. h

  pub source_action-IsSound :
      (id action revision : String) (d : Database)
      → IsSound d
      → IsSound (state (source_action relay id action revision d))
  unfolding source_action
  source_action-IsSound id action revision d h =
      Always-bind IsSound _ _ d (source_action_tx-IsSound (relay.draws 0) id action revision d h)
        λ x t _ k. sync_aggregate_after_visibility-IsSound 1 x.0 x.1 t k

  pub delete_source-IsSound :
      (id : String) (d : Database) → IsSound d → IsSound (state (delete_source relay id d))
  unfolding delete_source
  delete_source-IsSound id d h =
      Always-bind IsSound _ _ d (delete_source_tx-IsSound (relay.draws 0) id d h)
        λ v t _ k. ensure_aggregate_published-IsSound 1 _ t k

  pub soft_delete_source-IsSound :
      (id : String) (d : Database) → IsSound d → IsSound (state (soft_delete_source relay id d))
  unfolding soft_delete_source
  soft_delete_source-IsSound id d h =
      Always-bind IsSound _ _ d (soft_delete_tx-IsSound (relay.draws 0) id d h)
        λ v t _ k. ensure_aggregate_published-IsSound 1 _ t k
