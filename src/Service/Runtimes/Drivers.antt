-- ===== src/Service/Runtimes/Drivers.antt =====
-- A runtime keeps its driver, so that what its sources run on stays what they were checked for.
use shadow_relay.Prelude.{
  String, Bool, true, false, Option, some, ◌≡◌, ◌≢◌, ◌∙◌, refl, sym, ◌==◌, eq_iff, arith,
  Bool-cases, inl, inr, Option-cases,
}
use shadow_relay.Store.Table.{get, put, get-put_same, get-put_other, get_functional}
use shadow_relay.Store.Op.{state, write}
use shadow_relay.Store.Op.Ensures.{
  Ensures-ok, Ensures-bind, Ensures-when, Ensures-guard, Ensures_guard_last, write-keeps,
}
use shadow_relay.Store.Op.Always.{Always-bind, Always-guard, Always-quiet}
use shadow_relay.Store.Rows.Rules.{
  Ensures-get_row, Ensures-put_row, Ensures_insert_row_last, Ensures-insert_row, Always-get_row,
}
use shadow_relay.Security.Headers.{Headers}
use shadow_relay.Model.Catalog.{Runtime}
use shadow_relay.Model.Database.{Database, runtimes, audits}
use shadow_relay.Service.Connectors.{Connector, connector}
use shadow_relay.Service.Draws.{Draws, new_id, audit}
use shadow_relay.Service.Intake.{Site, save_secret}
use shadow_relay.Service.Intake.Reads.{save_secret-Apart}
use shadow_relay.Service.Preview.Soundness.{defaults-quiet}
use shadow_relay.Service.Runtimes.{
  Answer, refused, answered, outcome, save_runtime_tx, saved_runtime, save_runtime, tested,
  test_runtime_tx, test_runtime,
}

-- The runtime `k` has the driver, and it is one that there is a connector for.
pub record Driven (k driver : String) (d : Database) : Type 0 where
  pub runtime : Runtime
  pub row : get d.runtimes k ≡ some runtime
  pub driver_eq : runtime.driver ≡ driver

Driven-put :
    (k driver j : String) (v : Runtime) (d t : Database)
    → Driven k driver d
    → t.runtimes ≡ put d.runtimes j v
    → (j ≡ k → v.driver ≡ driver)
    → Driven k driver t
Driven-put k driver j v d t h e same = elim (Bool-cases (j == k)) [
  | inl y ↦ record {
    runtime = v;
    row = rw (e, (eq_iff j k).0 y) (get-put_same d.runtimes k v);
    driver_eq = same ((eq_iff j k).0 y);
  }
  | inr n ↦ record {
    runtime = h.runtime;
    row = rw e (get-put_other d.runtimes j k v (ground (arith, eq_iff j k)) ∙ h.row);
    driver_eq = h.driver_eq;
  }
]

-- Other tables do not matter.
Driven-same :
    (k driver : String) (d t : Database)
    → Driven k driver d
    → t.runtimes ≡ d.runtimes
    → Driven k driver t
Driven-same k driver d t h e = record {
  runtime = h.runtime;
  row = rw e h.row;
  driver_eq = h.driver_eq;
}

module _ (k driver : String) where
  save_runtime_tx-Driven :
      (site : Site) (w : Draws) (id : String) (v : Runtime) (h : Option Headers) (d : Database)
      → (id ≡ "" → v.id ≢ k)
      → (id ≢ "" → v.id ≡ id)
      → Driven k driver d
      → Driven k driver (state (write (save_runtime_tx site w id v h) d))
  unfolding save_runtime_tx audit
  save_runtime_tx-Driven site w id v h d new old start =
      write-keeps (Driven k driver) _ d start λ s.
        Ensures-bind {P = λ _ t. (t ≡ d) × (v.id ≡ k → v.driver ≡ driver)} _ _ d
          (Ensures-when _ _ _ d
            (λ none_yet. Ensures-ok _ _ (refl, λ e. absurd (new ((eq_iff id "").0 none_yet) e)))
            (λ there.
              Ensures-get_row runtimes _ _ d
                λ u e. Ensures_guard_last _ _ d λ same. (refl, λ key. kept u e there same s key)))
          λ _ t (same, f). rw same (
            Ensures-put_row runtimes _ _ _ d λ _.
              let d1 : Database = record d { runtimes = put d.runtimes v.id v } in
              Ensures-bind (save_secret site w v.id h) _ d1 (save_secret-Apart site w v.id h d1)
                λ _ d2 e2.
                  Ensures-insert_row audits _ _ _ _
                    λ _ _. Ensures-ok _ _ (Driven-put k driver v.id v d _ s e2.2 f))
    where
      -- The row that was found is the one with the driver.
      kept :
          (u : Runtime)
          → get d.runtimes id ≡ some u
          → (id == "") ≡ false
          → (u.driver == v.driver) ≡ true
          → Driven k driver d
          → v.id ≡ k
          → v.driver ≡ driver
      kept u e there same s key =
          let own : id ≡ k = sym (old (ground (arith, eq_iff id ""))) ∙ key in
          let found : u ≡ s.runtime =
            get_functional d.runtimes k u s.runtime (rw (← own) e) s.row in
          sym ((eq_iff u.driver v.driver).0 same) ∙ rw found s.driver_eq

  test_runtime_tx-Driven :
      (w : Draws) (id : String) (sync : Bool) (rt : Runtime) (answer : Answer) (d : Database)
      → Driven k driver d
      → Driven k driver (state (write (test_runtime_tx w id sync rt answer) d))
  unfolding test_runtime_tx audit tested
  test_runtime_tx-Driven w id sync rt answer d start = write-keeps (Driven k driver) _ d start λ s.
      Ensures-get_row runtimes _ _ d λ v e. Ensures-guard _ _ _ d λ _.
        Ensures-put_row runtimes _ _ _ d λ _. Ensures_insert_row_last audits _ _ _ λ _ _.
          Driven-put k driver id (tested w sync answer v) d _ s refl λ own.
            let found : v ≡ s.runtime =
              get_functional d.runtimes k v s.runtime (rw (← own) e) s.row in
            tested-driver w sync answer v ∙ rw found s.driver_eq
    where
      tested-driver :
          (w : Draws) (sync : Bool) (answer : Answer) (v : Runtime)
          → (tested w sync answer v).driver ≡ v.driver
      tested-driver w sync (refused e) v = refl
      tested-driver w sync (answered x y) v = refl

  -- where a runtime has a driver, saving a runtime, under a given id or under a new id that is
  -- not its own, leaves it that driver, whether the save succeeds or fails.
  pub save_runtime-Driven :
      (site : Site) (w : Draws) (id : String) (v : Runtime) (h : Option Headers) (d : Database)
      → (id ≡ "" → new_id w "runtime" 0 ≢ k)
      → Driven k driver d
      → Driven k driver (state (save_runtime site w id v h d))
  unfolding save_runtime saved_runtime
  save_runtime-Driven site w id v h d fresh s =
      let P = Driven k driver in
      Always-guard P _ _ _ d s λ _. elim (Option-cases (connector v.driver)) [
        | inl e ↦ rw e s
        | inr (c, e) ↦ rw e (
            Always-guard P _ _ _ d s λ _. Always-quiet P _ _ d s (defaults-quiet site.urls _ d) λ i.
              save_runtime_tx-Driven site w id (saved_runtime w id c i v) h d
                (λ none_yet. ground (arith, fresh, none_yet, eq_iff id ""))
                (λ there. ground (arith, eq_iff id "")) s)
      ]

  -- testing a runtime, or syncing its state, leaves every runtime its driver.
  pub test_runtime-Driven :
      (w : Draws) (ask : Connector → Runtime → Option Answer) (id : String) (sync : Bool)
      (d : Database)
      → Driven k driver d
      → Driven k driver (state (test_runtime w ask id sync d))
  unfolding test_runtime
  test_runtime-Driven w ask id sync d s = Always-get_row (Driven k driver) runtimes id _ d s λ rt _.
      elim (Option-cases (connector rt.driver)) [
        | inl e ↦ rw e s
        | inr (c, e) ↦ elim (Option-cases (ask c rt)) [
          | inl f ↦ rw (e, f) s
          | inr (a, f) ↦
              rw (e, f)
                (Always-bind (Driven k driver) _ _ d (test_runtime_tx-Driven w id sync rt a d s)
                  λ _ t _ s2. outcome-keeps a t s2)
        ]
      ]
    where
      outcome-keeps :
          (a : Answer) (t : Database) → Driven k driver t → Driven k driver (state (outcome a t))
      outcome-keeps (refused e) t x = x
      outcome-keeps (answered u v) t x = x
