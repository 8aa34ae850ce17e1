-- ===== src/Service/Schedule/Due.antt =====
-- The schedule makes a job of everything that is due, and of nothing else.
use shadow_relay.Prelude.{
  ap, ℕ, String, Bool, true, false, ◌||◌, ◌≡◌, ◌⊎◌, ◌↔◌, inl, inr, ◌∙◌, refl, any, arith,
  Bool-cases,
}
use shadow_relay.Store.Table.{rows}
use shadow_relay.Store.Op.{ok}
use shadow_relay.Store.Op.Ensures.{
  Ensures, Ensures-bind, Ensures-weaken, Ensures-result, write-eq-ok,
}
use shadow_relay.Store.Rows.Rules.{Ensures-list_rows}
use shadow_relay.Model.Database.{Database, sources, source_sets, catalogs}
use shadow_relay.Service.Draws.{Draws}
use shadow_relay.Service.Platform.{Platform}
use shadow_relay.Service.Jobs.{has_active}
use shadow_relay.Service.Schedule.{schedule_tx, schedule}
use shadow_relay.Service.Schedule.Jobs.{
  probe_job, sync_job, set_job, catalog_job, schedule_sources-Adds, schedule_sets-Adds,
  schedule_catalogs-Adds,
}
use shadow_relay.Service.Schedule.Conditions.{
  any-Some, source_job_iff, set_job_iff, catalog_job_iff, IsDue,
}

-- What the three loops add.
abbrev Added : Platform → Draws → Database → Database → Type 0
Added pf w d t =
    (k g : String)
    → has_active t k g ≡ (
        has_active d k g
        || (any (λ v. probe_job pf w v k g || sync_job pf w v k g) (rows d.sources)
            || (any (λ s. set_job pf w s k g) (rows d.source_sets)
                || any (λ c. catalog_job pf w c k g) (rows d.catalogs))))

or_assoc : (a b x y : Bool) → (((a || b) || x) || y) ≡ (a || (b || (x || y)))
or_assoc true b x y = refl
or_assoc false true x y = refl
or_assoc false false x y = refl

schedule_tx-Added :
    (pf : Platform) (w : Draws) (d : Database)
    → Ensures (λ _ t. Added pf w d t) (schedule_tx pf w d)
unfolding schedule_tx
schedule_tx-Added pf w d = Ensures-list_rows sources _ d (
    Ensures-bind _ _ d (schedule_sources-Adds pf w (rows d.sources) 0 d) λ n t a.
      Ensures-list_rows source_sets _ t (
        Ensures-bind _ _ t (schedule_sets-Adds pf w (rows t.source_sets) n t) λ m u b.
          Ensures-list_rows catalogs _ u (
            Ensures-weaken (schedule_catalogs-Adds pf w (rows u.catalogs) m u) λ _ r c k g.
              c.active k g
              ∙ rw (b.seen, b.active k g, a.active k g, ap (λ x. x.0) a.seen, ap (λ x. x.1) a.seen)
                  (or_assoc (has_active d k g) _ _ _))))

either_iff :
    {a b x y z : Bool} {X Y Z : Type 0}
    → a ≡ (b || (x || (y || z)))
    → x ≡ true ↔ X
    → y ≡ true ↔ Y
    → z ≡ true ↔ Z
    → a ≡ true ↔ ((b ≡ true) ⊎ (X ⊎ (Y ⊎ Z)))
either_iff {a} {b} {x} {y} {z} e p q r = (
  λ h. elim (Bool-cases b) [
    | inl v ↦ inl v
    | inr no_b ↦ elim (Bool-cases x) [
      | inl v ↦ inr (inl (p.0 v))
      | inr no_x ↦ elim (Bool-cases y) [
        | inl v ↦ inr (inr (inl (q.0 v)))
        | inr no_y ↦ inr (inr (inr (r.0 (ground arith))))
      ]
    ]
  ],
  λ h. elim h [
    | inl v ↦ ground (arith, v, e)
    | inr (inl i) ↦ ground (arith, p.1 i, e)
    | inr (inr (inl i)) ↦ ground (arith, q.1 i, e)
    | inr (inr (inr i)) ↦ ground (arith, r.1 i, e)
  ],
)

-- where the schedule succeeds, there waits or runs afterwards a job of a kind and a target
-- exactly where one did before, or where it is due: a probe of an enabled source with an active
-- revision that is probed at intervals or avoided, a sync of an enabled source with a URL whose
-- policy is neither pinned nor manual, the publication of a set that publishes automatically, or
-- a sync of an enabled catalog; each where the time for it has come or cannot be read.
pub schedule-Due :
    (pf : Platform) (w : Draws) (d t : Database) (n : ℕ) (kind target : String)
    → schedule pf w d ≡ ok n t
    → has_active t kind target ≡ true
      ↔ ((has_active d kind target ≡ true) ⊎ IsDue pf w d kind target)
unfolding schedule
schedule-Due pf w d t n kind target e =
    let a : Added pf w d t =
      Ensures-result {Q = λ _ t. Added pf w d t} _ (schedule_tx-Added pf w d) (write-eq-ok _ d e) in
    let ss = any-Some _ _ (source_job_iff pf w kind target) (rows d.sources) in
    let ts = any-Some _ _ (set_job_iff pf w kind target) (rows d.source_sets) in
    let cs = any-Some _ _ (catalog_job_iff pf w kind target) (rows d.catalogs) in
    either_iff (a kind target) ss ts cs
