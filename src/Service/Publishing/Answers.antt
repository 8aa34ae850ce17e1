-- ===== src/Service/Publishing/Answers.antt =====
-- The answers of Publish, of the automatic publication and of the preview.
use shadow_relay.Prelude.{
  String, Bool, true, false, ◌*◌, ◌≡◌, ◌⊎◌, inl, inr, refl, sym, List, some, arith, length, [],
}
use shadow_relay.Prelude.Int.{pos, ltz, scale}
use mathlib.Core.Path.{subst}
use mathlib.Core.Bool.{false≢true}
use shadow_relay.Store.Table.{Table, get, get_functional}
use shadow_relay.Store.Op.{ok, state}
use shadow_relay.Store.Op.Ensures.{
  Ensures, Ensures-bind, Ensures-weaken, Ensures-result, write-eq-ok, write-reads,
}
use shadow_relay.Store.Rows.Rules.{Ensures-get_row}
use shadow_relay.Model.Publication.{SourceSet, Publication}
use shadow_relay.Model.Database.{Database, source_sets}
use shadow_relay.Service.Draws.{Draws}
use shadow_relay.Service.Selection.{Selected, sort_members, is_empty}
use shadow_relay.Service.Selection.Eligibility.{
  Each, Covered, Picks, Picks-EligibleOf, Each-map, EligibleOf,
}
use shadow_relay.Service.Selection.Gathering.{gather_lem}
use shadow_relay.Service.Selection.Order.{Each-sort, Among-sort, length-sort}
use shadow_relay.Service.Publishing.{
  Encoding, is_withheld, prepare_publication_tx, prepare_publication, source_revisions,
}
use shadow_relay.Service.Publishing.Contents.{
  IsMadeOf, Accounted, accounted, source_revisions-IsMadeOf,
}
use shadow_relay.Service.Publishing.Safety.{CompiledFrom, IsCurrent, Answer, publish_items_lem}

-- The items that the loop found, and the answer that was made of them.
record Prepared (enc : Encoding) (w : Draws) (set : SourceSet) (automatic preview : Bool)
    (d : Database) (p : Publication) (t : Database) : Type 0 where
  pub items : List Selected
  pub excluded : Table String
  pub picks : Picks d (sort_members set.members) items
  pub covered : Each (Covered d items excluded) (sort_members set.members)
  pub answer :
      Answer enc w set.id set (sort_members set.members) items excluded automatic preview d p t

module _ (enc : Encoding) (w : Draws) (id : String) (automatic preview : Bool) (d : Database) where
  abbrev HasPrepared : Publication → Database → Type 0
  HasPrepared p t =
      (s : SourceSet) × (get d.source_sets id ≡ some s) × Prepared enc w s automatic preview d p t

  prepared : Ensures HasPrepared (prepare_publication_tx enc w id automatic preview d)
  unfolding prepare_publication_tx
  prepared = Ensures-get_row source_sets _ _ d λ s f.
      Ensures-bind
        {P = λ r t.
          (t ≡ d)
          × Picks d (sort_members s.members) r.0
          × Each (Covered d r.0 r.1) (sort_members s.members)}
        _ _ d (gather_lem d (sort_members s.members))
        λ r t (e, picks, covered). rw e (
          Ensures-weaken
            (publish_items_lem enc w id s (sort_members s.members) r.0 r.1 automatic preview d)
            λ p t' a. (
              s,
              f,
              record { items = r.0; excluded = r.1; picks = picks; covered = covered; answer = a },
            ))

  prepared_at :
      {p : Publication} {t : Database}
      → prepare_publication enc w id automatic preview d ≡ ok p t
      → HasPrepared p t
  unfolding prepare_publication
  prepared_at e = Ensures-result {Q = HasPrepared} _ prepared (write-eq-ok _ d e)

-- What a publication says of the members of its set, as the database `d` had them.
pub record Faithful (d : Database) (set : SourceSet) (p : Publication) : Type 0 where
  pub in_set : p.set_id ≡ set.id
  pub only : IsMadeOf d set.members p.source_revisions
  pub all : Each (Accounted d p) set.members

-- An automatic publication is within the policy of the set: it is made of selections of its
-- members, each of a member of its own.
pub record WithinPolicy (d : Database) (set : SourceSet) (p : Publication) : Type 0 where
  pub items : List Selected
  pub picks : Picks d (sort_members set.members) items
  pub made : p.source_revisions ≡ source_revisions items []
  pub wanted : set.auto_publish ≡ true
  pub enough : ltz (pos (length items)) set.min_available ≡ false
  pub few_excluded :
      ltz (scale set.max_excluded_percent (length set.members)) (pos (length p.exclusions * 100))
      ≡ false

faithful :
    (d : Database) (set : SourceSet) (items : List Selected) (ex : Table String) (p : Publication)
    → Picks d (sort_members set.members) items
    → Each (Covered d items ex) (sort_members set.members)
    → CompiledFrom items ex set.id p
    → Faithful d set p
unfolding get
faithful d set items ex p picks covered made =
    let every : Each (EligibleOf d set.members) items =
      Each-map (λ s e. (e.0, Among-sort s.member set.members e.1)) items
        (Picks-EligibleOf d (sort_members set.members) items picks) in
    record {
      in_set = made.set_id;
      only = rw made.revisions (source_revisions-IsMadeOf d set.members items [] every λ k r e. cc);
      all =
          Each-map
            (λ m c.
              accounted d items p m (Each-map (λ s e. e.0) items every) made.revisions
                (subst (λ x. Covered d items x m) (sym made.exclusions) c))
            set.members (Each-sort _ set.members covered);
    }

-- a preview leaves the database as it was, whether it succeeds or fails.
preview_writes_nothing :
    (enc : Encoding) (w : Draws) (id : String) (d : Database)
    → state (prepare_publication enc w id false true d) ≡ d
unfolding prepare_publication
preview_writes_nothing enc w id d = write-reads _ d (
    Ensures-weaken (prepared enc w id false true d) λ p t (s, f, r). elim r.answer [
      | inl (made, unmoved, _) ↦ unmoved refl
      | inr (auto, _) ↦ absurd (false≢true auto)
    ])

-- where publishing by hand, or its preview, succeeds for a set that is in the database, the
-- publication belongs to that set; each revision in it is the approved active revision of the
-- source of a member of the set, which is enabled, of a fit health, of the score and, where it
-- asks for any, of a media type that this member asks for, not for the catalog only, and, where
-- it has a runtime, with a healthy one; and each member of the set is in the publication or has
-- an entry among the exclusions.
pub prepare_publication-Faithful :
    (enc : Encoding) (w : Draws) (id : String) (preview : Bool) (d t : Database) (set : SourceSet)
    (p : Publication)
    → get d.source_sets id ≡ some set
    → prepare_publication enc w id false preview d ≡ ok p t
    → Faithful d set p
prepare_publication-Faithful enc w id preview d t set p row e =
    let (s, f, r) = prepared_at enc w id false preview d e in
    subst (λ x. Faithful d x p) (get_functional d.source_sets id s set f row)
      (elim r.answer [
        | inl (made, _, _) ↦ faithful d s r.items r.excluded p r.picks r.covered made
        | inr (auto, _) ↦ absurd (false≢true auto)
      ])

within :
    (enc : Encoding) (w : Draws) (d : Database) (set : SourceSet) (items : List Selected)
    (ex : Table String) (p : Publication)
    → Picks d (sort_members set.members) items
    → CompiledFrom items ex set.id p
    → is_withheld enc w set (sort_members set.members) items ex ≡ false
    → WithinPolicy d set p
unfolding is_withheld
within enc w d set items ex p picks made held =
    let few : ltz (scale set.max_excluded_percent (length (sort_members set.members)))
          (pos (length ex * 100))
        ≡ false =
      ground arith in
    record {
      items = items;
      picks = picks;
      made = made.revisions;
      wanted = ground arith;
      enough = ground arith;
      few_excluded = rw (made.exclusions, ← length-sort set.members) few;
    }

-- where an automatic publication succeeds for a set that is in the database, it either returns
-- the current publication and writes nothing, or its publication is faithful in the sense of
-- prepare_publication-Faithful and either keeps to the policy of the set (automatic publishing is
-- on, enough selections are made, each of them eligible and for a member of its own, and not too
-- many members are excluded) or belongs to a set without members.
pub automatic_publication :
    (enc : Encoding) (w : Draws) (id : String) (d t : Database) (set : SourceSet) (p : Publication)
    → get d.source_sets id ≡ some set
    → prepare_publication enc w id true false d ≡ ok p t
    → IsCurrent d set p t
      ⊎ (Faithful d set p × (WithinPolicy d set p ⊎ (is_empty set.members ≡ true)))
automatic_publication enc w id d t set p row e =
    let (s, f, r) = prepared_at enc w id true false d e in
    subst
      (λ x.
        IsCurrent d x p t ⊎ (Faithful d x p × (WithinPolicy d x p ⊎ (is_empty x.members ≡ true))))
      (get_functional d.source_sets id s set f row)
      (elim r.answer [
        | inr (_, current) ↦ inl current
        | inl (made, _, policy) ↦ inr (
          faithful d s r.items r.excluded p r.picks r.covered made,
          elim (policy refl) [
            | inl held ↦ inl (within enc w d s r.items r.excluded p r.picks made held)
            | inr empty ↦ inr empty
          ],
        )
      ])
