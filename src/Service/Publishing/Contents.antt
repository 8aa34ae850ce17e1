-- ===== src/Service/Publishing/Contents.antt =====
-- What a publication contains, and what an automatic one may do.
use shadow_relay.Prelude.{String, true, ◌≡◌, ◌⊎◌, inl, inr, refl, List, [], ◌∷◌, some}
use mathlib.Core.Path.{subst}
use shadow_relay.Model.Source.{Source}
use shadow_relay.Store.Table.{Table, get, has, put_cases}
use shadow_relay.Model.Publication.{Member, Publication}
use shadow_relay.Model.Database.{Database}
use shadow_relay.Service.Selection.{Selected}
use shadow_relay.Service.Selection.Eligibility.{Eligible, EligibleOf, Each, Chosen, Covered}
use shadow_relay.Service.Selection.Gathering.{has-put, has-put-same}
use shadow_relay.Service.Publishing.{source_revisions}

-- A revision stands in a publication because an eligible source was chosen with it, by one of the
-- given members.
pub record Made (d : Database) (ms : List Member) (sid rid : String) : Type 0 where
  pub selected : Selected
  pub eligible : EligibleOf d ms selected
  pub source_id : selected.source.id ≡ sid
  pub revision_id : selected.revision.id ≡ rid

abbrev pub IsMadeOf : Database → List Member → Table String → Type 0
IsMadeOf d ms t = (sid rid : String) → get t sid ≡ some rid → Made d ms sid rid

pub source_revisions-IsMadeOf :
    (d : Database) (ms : List Member) (items : List Selected) (t : Table String)
    → Each (EligibleOf d ms) items
    → IsMadeOf d ms t
    → IsMadeOf d ms (source_revisions items t)
unfolding source_revisions
source_revisions-IsMadeOf d ms [] t h made = made
source_revisions-IsMadeOf d ms (v ∷ vs) t h made = source_revisions-IsMadeOf d ms vs _ h.1 (
    put_cases (Made d ms) t v.source.id v.revision.id
      (record { selected = v; eligible = h.0; source_id = refl; revision_id = refl })
      (λ j u _ e. made j u e))

source_revisions-kept :
    (items : List Selected) (t : Table String) (k : String)
    → has t k ≡ true
    → has (source_revisions items t) k ≡ true
unfolding source_revisions
source_revisions-kept [] t k h = h
source_revisions-kept (v ∷ vs) t k h =
    source_revisions-kept vs _ k (has-put t v.source.id k v.revision.id h)

source_revisions-Chosen :
    (d : Database) (m : Member) (items : List Selected) (t : Table String)
    → Each (Eligible d) items
    → Chosen m items
    → (s : Selected) × (get d.sources m.source_id ≡ some s.source)
      × (has (source_revisions items t) s.source.id ≡ true)
unfolding source_revisions
source_revisions-Chosen d m [] t h c = absurd c
source_revisions-Chosen d m (v ∷ vs) t h (inl e) = (
  v,
  subst (λ x. get d.sources x.source_id ≡ some v.source) e h.0.source_row,
  source_revisions-kept vs _ v.source.id (has-put-same t v.source.id v.revision.id),
)
source_revisions-Chosen d m (v ∷ vs) t h (inr c) = source_revisions-Chosen d m vs _ h.1 c

-- The source of a member is published, or the publication gives the reason why not.
abbrev pub Accounted : Database → Publication → Member → Type 0
Accounted d p m =
    (v : Source) × (get d.sources m.source_id ≡ some v)
    × ((has p.exclusions v.id ≡ true) ⊎ (has p.source_revisions v.id ≡ true))

pub accounted :
    (d : Database) (items : List Selected) (p : Publication) (m : Member)
    → Each (Eligible d) items
    → p.source_revisions ≡ source_revisions items []
    → Covered d items p.exclusions m
    → Accounted d p m
accounted d items p m h e (v, row, inl x) = (v, row, inl x)
accounted d items p m h e (v, row, inr c) =
    let (s, srow, there) = source_revisions-Chosen d m items [] h c in
    (s.source, srow, inr (rw e there))
