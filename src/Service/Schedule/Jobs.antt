-- ===== src/Service/Schedule/Jobs.antt =====
-- Which active jobs the schedule leaves: those before it, and one for each thing that is due.
use shadow_relay.Prelude.{
  ℕ, String, Bool, true, false, ◌&&◌, ◌||◌, ◌==◌, ◌≡◌, ◌∙◌, refl, eq_iff, List, [], ◌∷◌, none, some,
  any, arith,
}
use shadow_relay.Store.Table.{Table, get, put, place}
use shadow_relay.Store.Op.Ensures.{Ensures, Ensures-ok, Ensures-when, Ensures-bind, Ensures-weaken}
use shadow_relay.Store.Rows.Rules.{Ensures-put_row, Ensures_insert_row_last}
use shadow_relay.Model.Queue.{Job, is_active}
use shadow_relay.Model.Source.{Source}
use shadow_relay.Model.Publication.{SourceSet}
use shadow_relay.Model.Catalog.{Catalog}
use shadow_relay.Model.Database.{Database, sources, source_sets, catalogs, jobs}
use shadow_relay.Service.Draws.{Draws}
use shadow_relay.Service.Platform.{Platform}
use shadow_relay.Service.Jobs.{find_active, has_active, add_job, enqueue}
use shadow_relay.Service.Jobs.Steps.{check_target-reads}
use shadow_relay.Service.Schedule.{
  is_due, is_probe_due, is_sync_due, schedule_probe, schedule_sync, schedule_sources, schedule_sets,
  schedule_catalogs,
}

-- The active jobs of `t` are those of `d` and the given ones; what `view` sees is as it was.
pub record Adds {X : Type 0} (view : Database → X) (d t : Database) (b : String → String → Bool)
    : Type 0 where
  pub active : (k g : String) → has_active t k g ≡ (has_active d k g || b k g)
  pub seen : view t ≡ view d

any-place :
    (p : String × Job → Bool) (t : Table Job) (id : String) (j : Job)
    → any p (place t id j) ≡ (any p t || p (id, j))
unfolding place
any-place p [] id j = ground arith
any-place p ((i, a) ∷ t) id j = ground (arith, any-place p t id j)

abbrev is_match : String → String → String × Job → Bool
is_match k g (i, j) = is_active j.status && j.kind == k && j.target_id == g

has_found : Table Job → String → String → Bool
has_found t k g = elim (find_active t k g) [ none ↦ false | some i ↦ true ]

has_found-any : (t : Table Job) (k g : String) → has_found t k g ≡ any (is_match k g) t
unfolding has_found find_active
has_found-any [] k g = refl
has_found-any ((i, j) ∷ t) k g = ground (arith, has_found-any t k g)

-- A new row is found with the others.
has_active-place :
    (d : Database) (id : String) (j : Job) (k g : String)
    → has_active (record d { jobs = place d.jobs id j }) k g
      ≡ (has_active d k g || is_match k g (id, j))
unfolding has_found
has_active-place d id j k g =
    has_found-any (place d.jobs id j) k g
    ∙ any-place (is_match k g) d.jobs id j
    ∙ rw (has_found-any d.jobs k g) refl

module _ {X : Type 0} (view : Database → X) where
  Adds-none :
      (d : Database) (b : String → String → Bool)
      → ((k g : String) → b k g ≡ false)
      → Adds view d d b
  Adds-none d b h = record { active = λ k g. ground (arith, h k g); seen = refl }

  Adds-eq :
      (d t : Database) (a b : String → String → Bool)
      → ((k g : String) → a k g ≡ b k g)
      → Adds view d t a
      → Adds view d t b
  Adds-eq d t a b h x = record { active = λ k g. x.active k g ∙ rw (h k g) refl; seen = x.seen }

  Adds-then :
      (d t u : Database) (a b : String → String → Bool)
      → Adds view d t a
      → Adds view t u b
      → Adds view d u (λ k g. a k g || b k g)
  Adds-then d t u a b x y = record {
    active = λ k g. y.active k g ∙ ground (arith, x.active k g);
    seen = y.seen ∙ x.seen;
  }

  enqueue-Adds :
      ((d : Database) (t : Table Job) → view (record d { jobs = t }) ≡ view d)
      → (w : Draws) (id kind target : String) (d : Database)
      → Ensures
          (λ _ t. Adds view d t (λ k g. kind == k && target == g))
          (enqueue w id kind target d)
  unfolding enqueue add_job put find_active get
  enqueue-Adds still w id kind target d =
      Ensures-bind {P = λ _ t. t ≡ d} _ _ d (check_target-reads kind target d) λ _ t e. rw e (
        Ensures-when _ _ _ d
          (λ y. Ensures-ok _ _ (record {
            active = λ k g. ground (arith, y, eq_iff kind k, eq_iff target g);
            seen = refl;
          }))
          λ n. Ensures_insert_row_last jobs _ _ d λ fresh _. record {
            active = λ k g. rw (fresh) (has_active-place d id _ k g);
            seen = still d _;
          })

abbrev pub sets_and_catalogs : Database → Table SourceSet × Table Catalog
sets_and_catalogs d = (d.source_sets, d.catalogs)

-- The jobs that the schedule adds for one thing.
module _ (pf : Platform) (w : Draws) where
  unfoldable pub probe_job : Source → String → String → Bool
  probe_job v k g = is_probe_due pf w v && ("source.probe" == k && v.id == g)

  unfoldable pub sync_job : Source → String → String → Bool
  sync_job v k g = is_sync_due pf w v && ("source.sync" == k && v.id == g)

  unfoldable pub set_job : SourceSet → String → String → Bool
  set_job s k g =
      (s.auto_publish && is_due pf w s.next_publish) && ("set.publish" == k && s.id == g)

  unfoldable pub catalog_job : Catalog → String → String → Bool
  catalog_job c k g = (c.enabled && is_due pf w c.next_sync) && ("catalog.sync" == k && c.id == g)

  schedule_probe-Adds :
      (n : ℕ) (v : Source) (d : Database)
      → Ensures
          (λ x t.
            Adds sets_and_catalogs d t (probe_job v)
            × (x.1.id ≡ v.id)
            × (is_sync_due pf w x.1 ≡ is_sync_due pf w v))
          (schedule_probe pf w n v d)
  unfolding schedule_probe probe_job is_sync_due
  schedule_probe-Adds n v d =
      Ensures-when _ _ _ d
        (λ y.
          Ensures-bind _ _ d
            (enqueue-Adds sets_and_catalogs (λ _ _. refl) w _ "source.probe" v.id d)
            λ _ t g. Ensures-put_row sources _ _ _ t λ _. Ensures-ok _ _ (
              Adds-eq sets_and_catalogs d _ _ _ (λ k h. ground (arith, y))
                  (record { active = g.active; seen = g.seen }),
              refl,
              refl,
            ))
        (λ n.
          Ensures-ok _ _ (Adds-none sets_and_catalogs d _ (λ k h. ground (arith, n)), refl, refl))

  schedule_sync-Adds :
      (n : ℕ) (v : Source) (d : Database)
      → Ensures (λ _ t. Adds sets_and_catalogs d t (sync_job v)) (schedule_sync pf w n v d)
  unfolding schedule_sync sync_job
  schedule_sync-Adds n v d =
      Ensures-when _ _ _ d
        (λ y.
          Ensures-bind _ _ d (enqueue-Adds sets_and_catalogs (λ _ _. refl) w _ "source.sync" v.id d)
            λ _ t g. Ensures-put_row sources _ _ _ t λ _. Ensures-ok _ _ (
              Adds-eq sets_and_catalogs d _ _ _ (λ k h. ground (arith, y))
                (record { active = g.active; seen = g.seen })))
        (λ n. Ensures-ok _ _ (Adds-none sets_and_catalogs d _ (λ k h. ground (arith, n))))

  pub schedule_sources-Adds :
      (vs : List Source) (n : ℕ) (d : Database)
      → Ensures
          (λ _ t.
            Adds sets_and_catalogs d t (λ k g. any (λ v. probe_job v k g || sync_job v k g) vs))
          (schedule_sources pf w n vs d)
  unfolding schedule_sources sync_job
  schedule_sources-Adds [] n d = Ensures-ok _ _ (Adds-none sets_and_catalogs d _ λ _ _. refl)
  schedule_sources-Adds (v ∷ vs) n d =
      Ensures-bind _ _ d (schedule_probe-Adds n v d) λ x t (a, same, due).
        Ensures-bind _ _ t (schedule_sync-Adds x.0 x.1 t) λ m u b.
          Ensures-weaken (schedule_sources-Adds vs m u) λ _ u' c.
            Adds-eq sets_and_catalogs d u' _ _ (λ k g. rw (due, same) (ground arith))
              (Adds-then sets_and_catalogs d t u' _ _ a
                (Adds-then sets_and_catalogs t u u' _ _ b c))

  pub schedule_sets-Adds :
      (ss : List SourceSet) (n : ℕ) (d : Database)
      → Ensures
          (λ _ t. Adds (λ x. x.catalogs) d t (λ k g. any (λ s. set_job s k g) ss))
          (schedule_sets pf w n ss d)
  unfolding schedule_sets set_job
  schedule_sets-Adds [] n d = Ensures-ok _ _ (Adds-none (λ x. x.catalogs) d _ λ _ _. refl)
  schedule_sets-Adds (s ∷ ss) n d =
      Ensures-bind {P = λ _ t. Adds (λ x. x.catalogs) d t (set_job s)} _ _ d
        (Ensures-when _ _ _ d
          (λ y.
            Ensures-bind _ _ d
              (enqueue-Adds (λ x. x.catalogs) (λ _ _. refl) w _ "set.publish" s.id d)
              λ _ t g. Ensures-put_row source_sets _ _ _ t λ _. Ensures-ok _ _ (
                Adds-eq (λ x. x.catalogs) d _ _ _ (λ k h. ground (arith, y))
                  (record { active = g.active; seen = g.seen })))
          (λ n. Ensures-ok _ _ (Adds-none (λ x. x.catalogs) d _ (λ k h. ground (arith, n)))))
        λ m t a.
          Ensures-weaken (schedule_sets-Adds ss m t)
            λ _ u b. Adds-then (λ x. x.catalogs) d t u _ _ a b

  pub schedule_catalogs-Adds :
      (cs : List Catalog) (n : ℕ) (d : Database)
      → Ensures
          (λ _ t. Adds (λ _. tt) d t (λ k g. any (λ c. catalog_job c k g) cs))
          (schedule_catalogs pf w n cs d)
  unfolding schedule_catalogs catalog_job
  schedule_catalogs-Adds [] n d = Ensures-ok _ _ (Adds-none (λ _. tt) d _ λ _ _. refl)
  schedule_catalogs-Adds (c ∷ cs) n d =
      Ensures-bind {P = λ _ t. Adds (λ _. tt) d t (catalog_job c)} _ _ d
        (Ensures-when _ _ _ d
          (λ y.
            Ensures-bind _ _ d (enqueue-Adds (λ _. tt) (λ _ _. refl) w _ "catalog.sync" c.id d)
              λ _ t g. Ensures-put_row catalogs _ _ _ t λ _. Ensures-ok _ _ (
                Adds-eq (λ _. tt) d _ _ _ (λ k h. ground (arith, y))
                  (record { active = g.active; seen = refl })))
          (λ n. Ensures-ok _ _ (Adds-none (λ _. tt) d _ (λ k h. ground (arith, n)))))
        λ m t a.
          Ensures-weaken (schedule_catalogs-Adds cs m t) λ _ u b. Adds-then (λ _. tt) d t u _ _ a b
