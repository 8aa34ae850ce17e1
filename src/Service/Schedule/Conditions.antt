-- ===== src/Service/Schedule/Conditions.antt =====
-- When a probe, a sync or a publication is due.
use shadow_relay.Prelude.{
  Option-cases, sym, ℕ, String, Bool, true, ◌&&◌, ◌||◌, ◌==◌, ◌≡◌, ◌≢◌, ◌≤◌, ◌⊎◌, ◌↔◌, inl, inr,
  ◌∙◌, refl, List, [], ◌∷◌, some, any, arith, eq_iff, Bool-cases,
}
use mathlib.Core.Option.{none-ne-some}
use shadow_relay.Prelude.Int.{pos, ltz}
use shadow_relay.Store.Table.{rows}
use shadow_relay.Model.Source.{Source, Health, avoid, is_avoid}
use shadow_relay.Model.Publication.{SourceSet}
use shadow_relay.Model.Catalog.{Catalog}
use shadow_relay.Model.Database.{Database}
use shadow_relay.Service.Draws.{Draws}
use shadow_relay.Service.Platform.{Platform}
use shadow_relay.Service.Schedule.{is_due, is_probe_due, is_sync_due}
use shadow_relay.Service.Schedule.Jobs.{probe_job, sync_job, set_job, catalog_job}

-- One of a list.
abbrev pub Some : {A : Type 0} → (A → Type 0) → List A → Type 0
Some P [] = ⊥
Some P (x ∷ xs) = P x ⊎ Some P xs

pub any-Some :
    {A : Type 0} (p : A → Bool) (P : A → Type 0)
    → ((x : A) → p x ≡ true ↔ P x)
    → (xs : List A) → any p xs ≡ true ↔ Some P xs
any-Some p P h [] = (λ e. ground (arith, e), λ z. absurd z)
any-Some p P h (x ∷ xs) =
    let (to, from) = any-Some p P h xs in
    (
      λ e. elim (Bool-cases (p x)) [
        | inl y ↦ inl ((h x).0 y)
        | inr n ↦ inr (to (ground (arith, e, n)))
      ],
      λ z. elim z [ inl a ↦ rw ((h x).1 a) refl | inr b ↦ ground (arith, from b) ],
    )

is_avoid-eq : (h : Health) → is_avoid h ≡ true → h ≡ avoid
is_avoid-eq h e = ground arith

module _ (pf : Platform) (w : Draws) where
  -- The time has come, or it cannot be read.
  abbrev pub IsPast : String → Type 0
  IsPast text = (t : ℕ) → pf.parse_time text ≡ some t → t ≤ w.clock

  abbrev pub IsProbeDue : Source → Type 0
  IsProbeDue v =
      (v.enabled ≡ true)
      × (v.active_revision ≢ "")
      × ((ltz (pos 0) v.probe_interval_minutes ≡ true) ⊎ (v.health ≡ avoid))
      × IsPast v.next_probe

  abbrev pub IsSyncDue : Source → Type 0
  IsSyncDue v =
      (v.enabled ≡ true)
      × (v.url ≢ "")
      × (v.update_policy ≢ "pinned")
      × (v.update_policy ≢ "manual")
      × IsPast v.next_sync

  is_due_iff : (text : String) → is_due pf w text ≡ true ↔ IsPast text
  unfolding is_due
  is_due_iff text = elim (Option-cases (pf.parse_time text)) [
    | inl e ↦ (λ _ t f. absurd (none-ne-some _ (sym e ∙ f)), λ _. rw (e, is_due) refl)
    | inr (u, e) ↦ (λ y t f. ground (arith, y, e, f), λ h. ground (arith, e, h u e))
  ]

  is_probe_due_iff : (v : Source) → is_probe_due pf w v ≡ true ↔ IsProbeDue v
  unfolding is_probe_due
  is_probe_due_iff v =
      let (to, from) = is_due_iff v.next_probe in
      (
        λ e. (
          ground arith,
          ground (arith, eq_iff v.active_revision ""),
          elim (Bool-cases (ltz (pos 0) v.probe_interval_minutes)) [
            | inl y ↦ inl y
            | inr n ↦ inr (is_avoid-eq v.health (ground (arith, e, n)))
          ],
          to (ground arith),
        ),
        λ (a, b, c, p). elim c [
          | inl y ↦ ground (arith, a, b, y, from p, eq_iff v.active_revision "")
          | inr h ↦
              let y : is_avoid v.health ≡ true = rw h refl in
              ground (arith, a, b, y, from p, eq_iff v.active_revision "")
        ],
      )

  is_sync_due_iff : (v : Source) → is_sync_due pf w v ≡ true ↔ IsSyncDue v
  unfolding is_sync_due
  is_sync_due_iff v =
      let (to, from) = is_due_iff v.next_sync in
      (
        λ e. (
          ground arith,
          ground (arith, eq_iff v.url ""),
          ground (arith, eq_iff v.update_policy "pinned"),
          ground (arith, eq_iff v.update_policy "manual"),
          to (ground arith),
        ),
        λ (a, b, c, p, q). ground (
          arith,
          a,
          b,
          c,
          p,
          from q,
          eq_iff v.url "",
          eq_iff v.update_policy "pinned",
          eq_iff v.update_policy "manual",
        ),
      )

  -- A job of the kind and the target is due for a source, a set or a catalog.
  abbrev pub IsSourceDue : String → String → Source → Type 0
  IsSourceDue kind target v =
      (v.id ≡ target)
      × ((("source.probe" ≡ kind) × IsProbeDue v) ⊎ (("source.sync" ≡ kind) × IsSyncDue v))

  abbrev pub IsSetDue : String → String → SourceSet → Type 0
  IsSetDue kind target s =
      (s.id ≡ target) × ("set.publish" ≡ kind) × (s.auto_publish ≡ true) × IsPast s.next_publish

  abbrev pub IsCatalogDue : String → String → Catalog → Type 0
  IsCatalogDue kind target c =
      (c.id ≡ target) × ("catalog.sync" ≡ kind) × (c.enabled ≡ true) × IsPast c.next_sync

  abbrev pub IsDue : Database → String → String → Type 0
  IsDue d kind target =
      Some (IsSourceDue kind target) (rows d.sources)
      ⊎ (Some (IsSetDue kind target) (rows d.source_sets)
          ⊎ Some (IsCatalogDue kind target) (rows d.catalogs))

  pub source_job_iff :
      (kind target : String) (v : Source)
      → (probe_job pf w v kind target || sync_job pf w v kind target) ≡ true
        ↔ IsSourceDue kind target v
  unfolding probe_job sync_job
  source_job_iff kind target v =
      let p = is_probe_due_iff v in
      let q = is_sync_due_iff v in
      let i = eq_iff v.id target in
      let j = eq_iff "source.probe" kind in
      let k = eq_iff "source.sync" kind in
      (
        λ e. elim (Bool-cases (is_probe_due pf w v && ("source.probe" == kind && v.id == target))) [
          | inl y ↦
              (i.0 (ground (arith, y)), inl (j.0 (ground (arith, y)), p.0 (ground (arith, y))))
          | inr n ↦ (
            i.0 (ground (arith, n, e)),
            inr (k.0 (ground (arith, n, e)), q.0 (ground (arith, n, e))),
          )
        ],
        λ (same, due). elim due [
          | inl (kind_is, d) ↦ ground (arith, i.1 same, j.1 kind_is, p.1 d)
          | inr (kind_is, d) ↦ ground (arith, i.1 same, k.1 kind_is, q.1 d)
        ],
      )

  pub set_job_iff :
      (kind target : String) (s : SourceSet)
      → set_job pf w s kind target ≡ true ↔ IsSetDue kind target s
  unfolding set_job
  set_job_iff kind target s =
      let p = is_due_iff s.next_publish in
      let i = eq_iff s.id target in
      let j = eq_iff "set.publish" kind in
      (
        λ e. (
          i.0 (ground (arith, e)),
          j.0 (ground (arith, e)),
          ground (arith, e),
          p.0 (ground (arith, e)),
        ),
        λ (same, kind_is, on, past). ground (arith, i.1 same, j.1 kind_is, on, p.1 past),
      )

  pub catalog_job_iff :
      (kind target : String) (c : Catalog)
      → catalog_job pf w c kind target ≡ true ↔ IsCatalogDue kind target c
  unfolding catalog_job
  catalog_job_iff kind target c =
      let p = is_due_iff c.next_sync in
      let i = eq_iff c.id target in
      let j = eq_iff "catalog.sync" kind in
      (
        λ e. (
          i.0 (ground (arith, e)),
          j.0 (ground (arith, e)),
          ground (arith, e),
          p.0 (ground (arith, e)),
        ),
        λ (same, kind_is, on, past). ground (arith, i.1 same, j.1 kind_is, on, p.1 past),
      )
