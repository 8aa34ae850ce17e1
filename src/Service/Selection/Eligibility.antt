-- ===== src/Service/Selection/Eligibility.antt =====
-- What the loop over the members establishes: whom it chooses, and that it forgets nobody.
use mathlib.Core.Bool.{false≢true}
use shadow_relay.Prelude.{
  ◌∙◌, if◌then◌else◌, String, Bool, true, false, not, ◌≡◌, ◌≢◌, ◌⊎◌, inl, inr, refl, sym, List, [],
  ◌∷◌, some, arith, ◌==◌, eq_iff, ◌&&◌, ◌||◌,
}
use shadow_relay.Prelude.Int.{pos, ltz}
use shadow_relay.Store.Table.{Table, get, has}
use shadow_relay.Store.Op.Ensures.{Ensures, Ensures-ok, Ensures-when, Ensures-guard}
use shadow_relay.Store.Rows.Rules.{Ensures-get_row}
use shadow_relay.Model.Source.{
  Source, Revision, Health, unknown, healthy, degraded, failing, avoid, quarantined, disabled,
  approved, RevisionStatus, is_approved, is_healthy,
}
use shadow_relay.Model.Catalog.{Runtime}
use shadow_relay.Model.Publication.{Member}
use shadow_relay.Model.Database.{Database, sources, revisions, runtimes}
use shadow_relay.Service.Selection.{
  Selected, Choice, is_empty, overlap, left_out, chosen, exclusion_reason, is_unfit, health_text,
  place_source, consider, choose,
}

-- What a publication may be made of.
pub record Eligible (d : Database) (s : Selected) : Type 0 where
  pub source_row : get d.sources s.member.source_id ≡ some s.source
  pub enabled : s.source.enabled ≡ true
  pub active : s.source.active_revision ≢ ""
  pub fit : is_unfit s.source.health ≡ false
  pub scored : ltz (pos s.source.score) s.member.min_score ≡ false
  pub served : s.source.mode ≢ "catalog-only"
  pub media :
      (is_empty s.member.media_types || overlap s.source.media_types s.member.media_types) ≡ true
  pub revision_row : get d.revisions s.source.active_revision ≡ some s.revision
  pub is_reviewed : s.revision.status ≡ approved
  pub runtime :
      s.source.runtime_id ≢ ""
      → (r : Runtime) × (get d.runtimes s.source.runtime_id ≡ some r) × (r.health ≡ healthy)

-- What the absence of a reason says.
pub record Fit (src : Source) (m : Member) : Type 0 where
  pub enabled : src.enabled ≡ true
  pub active : src.active_revision ≢ ""
  pub fit : is_unfit src.health ≡ false
  pub scored : ltz (pos src.score) m.min_score ≡ false
  pub served : src.mode ≢ "catalog-only"
  pub media : (is_empty m.media_types || overlap src.media_types m.media_types) ≡ true

reason-ne : (h : Health) → (health_text h == "") ≡ false
reason-ne unknown = refl
reason-ne healthy = refl
reason-ne degraded = refl
reason-ne failing = refl
reason-ne avoid = refl
reason-ne quarantined = refl
reason-ne disabled = refl

-- A chain of reasons that ends with none passed its first test.
passes :
    (c : Bool) (r rest : String)
    → (r == "") ≡ false
    → ((if c then r else rest) == "") ≡ true
    → (c ≡ false) × ((rest == "") ≡ true)
passes true r rest n e = absurd (false≢true (sym n ∙ e))
passes false r rest n e = (refl, e)

exclusion_reason-none :
    (src : Source) (m : Member) → (exclusion_reason src m == "") ≡ true → Fit src m
unfolding exclusion_reason
exclusion_reason-none src m e =
    let (on, e1) = passes (not src.enabled) "disabled" _ refl e in
    let (seen, e2) = passes (src.active_revision == "") "no_approved_revision" _ refl e1 in
    let (fit, e3) =
      passes (is_unfit src.health) (health_text src.health) _ (reason-ne src.health) e2 in
    let (scored, e4) = passes (ltz (pos src.score) m.min_score) "below_minimum_health" _ refl e3 in
    let (served, e5) = passes (src.mode == "catalog-only") "catalog_only" _ refl e4 in
    let (media, _) =
      passes (not (is_empty m.media_types) && not (overlap src.media_types m.media_types))
        "media_filtered" "" refl e5 in
    record {
      enabled = ground arith;
      active = ground (arith, eq_iff src.active_revision "");
      fit = fit;
      scored = scored;
      served = ground (arith, eq_iff src.mode "catalog-only");
      media = ground (arith, media);
    }

-- What one round found.
abbrev pub Found : Database → Member → Choice → Type 0
Found d m (left_out id reason) = (v : Source) × (get d.sources m.source_id ≡ some v) × (v.id ≡ id)
Found d m (chosen s) = (s.member ≡ m) × Eligible d s

is_approved-eq : (s : RevisionStatus) → is_approved s ≡ true → s ≡ approved
is_approved-eq s e = ground arith

is_healthy-eq : (h : Health) → is_healthy h ≡ true → h ≡ healthy
is_healthy-eq h e = ground arith

module _ (d : Database) (m : Member) where
  eligible :
      (v : Source) (r : Revision) (endpoint driver : String)
      → get d.sources m.source_id ≡ some v
      → Fit v m
      → get d.revisions v.active_revision ≡ some r
      → is_approved r.status ≡ true
      → (v.runtime_id ≢ ""
          → (x : Runtime) × (get d.runtimes v.runtime_id ≡ some x) × (x.health ≡ healthy))
      → Eligible d
          (record { source = v; revision = r; member = m; endpoint = endpoint; driver = driver })
  eligible v r endpoint driver row fit rev ok run = record {
    source_row = row;
    enabled = fit.enabled;
    active = fit.active;
    fit = fit.fit;
    scored = fit.scored;
    served = fit.served;
    media = fit.media;
    revision_row = rev;
    is_reviewed = is_approved-eq r.status ok;
    runtime = run;
  }

  pub choose_lem : Ensures (λ c t. (t ≡ d) × Found d m c) (choose m d)
  unfolding choose consider place_source
  choose_lem = Ensures-get_row sources _ _ d λ v row.
      Ensures-when _ _ _ d (λ _. Ensures-ok _ d (refl, (v, row, refl)))
        λ free.
          let fit = exclusion_reason-none v m (ground arith) in
          Ensures-get_row revisions _ _ d λ r rev. Ensures-guard (is_approved r.status) _ _ d λ ok.
            Ensures-when _ _ _ d (λ _. Ensures-ok _ d (refl, (v, row, refl)))
              λ _.
                Ensures-when (v.runtime_id == "") _ _ d
                  (λ none. Ensures-ok _ d (
                    refl,
                    (
                      refl,
                      eligible v r _ _ row fit rev ok
                          (λ ne. absurd (ne ((eq_iff v.runtime_id "").0 none))),
                    ),
                  ))
                  λ _. Ensures-get_row runtimes _ _ d λ x f.
                    Ensures-when (is_healthy x.health) _ _ d
                      (λ well. Ensures-ok _ d (
                        refl,
                        (
                          refl,
                          eligible v r _ _ row fit rev ok
                              (λ _. (x, f, is_healthy-eq x.health well)),
                        ),
                      ))
                      (λ _. Ensures-ok _ d (refl, (v, row, refl)))

-- Every element of a list.
abbrev pub Each : {A : Type 0} → (A → Type 0) → List A → Type 0
Each P [] = Unit
Each P (x ∷ xs) = P x × Each P xs

-- What a loop over the members may choose: in their order, and for each of them at most one
-- selection, which is of that member and eligible by it.
pub data Picks (d : Database) : List Member → List Selected → Type 0 where
  done : Picks d [] []
  pass : {m : Member} {ms : List Member} {ss : List Selected} → Picks d ms ss → Picks d (m ∷ ms) ss
  pick :
      {s : Selected} {ms : List Member} {ss : List Selected}
      → Eligible d s
      → Picks d ms ss
      → Picks d (s.member ∷ ms) (s ∷ ss)

-- The member is one of the list.
abbrev pub Among : Member → List Member → Type 0
Among m [] = ⊥
Among m (n ∷ ns) = (n ≡ m) ⊎ Among m ns

-- An eligible selection of a member of the list.
abbrev pub EligibleOf : Database → List Member → Selected → Type 0
EligibleOf d ms s = Eligible d s × Among s.member ms

pub Each-map :
    {A : Type 0} {P Q : A → Type 0} → ((a : A) → P a → Q a) → (xs : List A) → Each P xs → Each Q xs
Each-map f [] h = tt
Each-map f (x ∷ xs) h = (f x h.0, Each-map f xs h.1)

pub Picks-EligibleOf :
    (d : Database) (ms : List Member) (ss : List Selected)
    → Picks d ms ss
    → Each (EligibleOf d ms) ss
Picks-EligibleOf d _ _ done = tt
Picks-EligibleOf d (m ∷ ms) ss (pass p) =
    Each-map (λ s e. (e.0, inr e.1)) ss (Picks-EligibleOf d ms ss p)
Picks-EligibleOf d (_ ∷ ms) (s ∷ ss) (pick e p) =
    ((e, inl refl), Each-map (λ s e. (e.0, inr e.1)) ss (Picks-EligibleOf d ms ss p))

-- The member is among those chosen.
abbrev pub Chosen : Member → List Selected → Type 0
Chosen m [] = ⊥
Chosen m (s ∷ ss) = (s.member ≡ m) ⊎ Chosen m ss

-- The member was chosen, or its source has a reason.
abbrev pub Covered : Database → List Selected → Table String → Member → Type 0
Covered d items excluded m =
    (v : Source) × (get d.sources m.source_id ≡ some v)
    × ((has excluded v.id ≡ true) ⊎ Chosen m items)
