-- ===== src/Service/Publishing/Safety.antt =====
-- What publishing may do: manual and automatic publications, and the preview.
use shadow_relay.Prelude.{
  String, Bool, true, false, not, ◌&&◌, ◌*◌, ◌≡◌, ◌≢◌, ◌⊎◌, inl, inr, refl, List, [], ◌∷◌, some,
  arith, ◌==◌, eq_iff, length, sym, ◌∙◌, ap, Sum-cases,
}
use shadow_relay.Prelude.Int.{pos, ltz, scale}
use shadow_relay.Store.Table.{Table, get}
use shadow_relay.Store.Op.Ensures.{
  Ensures, Ensures-ok, Ensures-err, Ensures-when, Ensures-guard, Ensures-bind,
}
use shadow_relay.Store.Rows.Rules.{Ensures-insert_row, Ensures-put_row, Ensures_get_row_last}
use shadow_relay.Model.Publication.{Member, SourceSet, Publication}
use shadow_relay.Model.Database.{Database, source_sets, publications, audits}
use shadow_relay.Service.Draws.{Draws, audit, new_id}
use shadow_relay.Service.Selection.{Selected, is_empty}
use shadow_relay.Service.Buckets.{is_aggregate_set_id}
use shadow_relay.Service.Publishing.{
  Encoding, source_revisions, compile, withdraw, nothing_to_publish, is_withheld,
  release_publication, publish_items, get_row,
}
use mathlib.Core.Bool.{false≢true, true≢false}

-- A compiled publication of the chosen items, with the reasons for the others.
pub record CompiledFrom (items : List Selected) (excluded : Table String) (id : String)
    (p : Publication) : Type 0 where
  pub set_id : p.set_id ≡ id
  pub revisions : p.source_revisions ≡ source_revisions items []
  pub exclusions : p.exclusions ≡ excluded

-- The answer is the current publication, and nothing is written.
abbrev pub IsCurrent : Database → SourceSet → Publication → Database → Type 0
IsCurrent d set p t =
    (t ≡ d) × (set.current_publication ≢ "") × (get d.publications set.current_publication ≡ some p)

-- An automatic publication of these items is within the policy of the set.
abbrev pub IsWithinPolicy : SourceSet → List Selected → Publication → Type 0
IsWithinPolicy set items p =
    (set.auto_publish ≡ true)
    × (ltz (pos (length items)) set.min_available ≡ false)
    × (ltz (scale set.max_excluded_percent (length set.members)) (pos (length p.exclusions * 100))
        ≡ false)

module _ (enc : Encoding) (w : Draws) (set : SourceSet) (items : List Selected)
    (excluded : Table String) where
  pub compile_lem :
      (d : Database)
      → Ensures
          (λ p t. (t ≡ d) × CompiledFrom items excluded set.id p)
          (compile enc w set items excluded d)
  unfolding compile
  compile_lem d = elim (Sum-cases (enc.render set items (new_id w "pub" 0) w.now)) [
    | inl (e, q) ↦ rw (q, compile) (Ensures-err _ _)
    | inr (x, q) ↦
        rw (q, compile)
          (Ensures-ok _ d (refl, record { set_id = refl; revisions = refl; exclusions = refl }))
  ]

module _ (enc : Encoding) (w : Draws) (id : String) (set : SourceSet) (members : List Member)
    (items : List Selected) (excluded : Table String) (automatic preview : Bool)
    (d : Database) where
  -- What was made of the items, or the publication that stays.
  abbrev pub Answer : Publication → Database → Type 0
  Answer p t =
      (CompiledFrom items excluded set.id p
        × (preview ≡ true → t ≡ d)
        × (automatic ≡ true
            → (is_withheld enc w set members items excluded ≡ false)
              ⊎ (is_empty set.members ≡ true)))
      ⊎ ((automatic ≡ true) × IsCurrent d set p t)

  is_empty-eq : {A : Type 0} (xs : List A) → is_empty xs ≡ true → xs ≡ []
  is_empty-eq [] e = refl
  is_empty-eq (x ∷ xs) e = absurd (false≢true e)

  withdrawn :
      is_empty items ≡ true
      → is_empty set.members ≡ true
      → preview ≡ false
      → Ensures Answer (withdraw enc w set excluded d)
  unfolding withdraw audit source_revisions
  withdrawn bare empty now = Ensures-insert_row publications _ _ _ d λ _ _.
      Ensures-put_row source_sets _ _ _ _ λ _. Ensures-insert_row audits _ _ _ _ λ _ _.
        Ensures-ok _ _ (
          inl (
            record {
              set_id = refl;
              revisions = ap (λ x. source_revisions x []) (sym (is_empty-eq items bare));
              exclusions = refl;
            },
            (λ y. absurd (false≢true (sym now ∙ y))),
            λ _. inr empty,
          ))

  kept :
      automatic ≡ true
      → (set.current_publication == "") ≡ false
      → Ensures Answer (get_row publications set.current_publication d)
  kept auto known = Ensures_get_row_last publications _ d λ p f. inr (
    auto,
    (refl, (λ e. absurd (true≢false (sym ((eq_iff set.current_publication "").1 e) ∙ known))), f),
  )

  nothing :
      is_empty items ≡ true
      → Ensures Answer (nothing_to_publish enc w set excluded automatic preview d)
  unfolding nothing_to_publish
  nothing bare =
      Ensures-when (is_aggregate_set_id set.id && is_empty set.members && not preview) _ _ d
        (λ y. withdrawn bare (ground arith) (ground arith))
        λ _.
          Ensures-when (automatic && not (set.current_publication == "")) _ _ d
            (λ y. kept (ground arith) (ground arith)) λ _. Ensures-err _ _

  released :
      (automatic ≡ true → is_withheld enc w set members items excluded ≡ false)
      → Ensures Answer (release_publication enc w id set members items excluded preview d)
  unfolding release_publication audit
  released held =
      Ensures-bind {P = λ p t. (t ≡ d) × CompiledFrom items excluded set.id p} _ _ d
        (compile_lem enc w set items excluded d)
        λ p t (e, made).
          Ensures-when preview _ _ t (λ _. Ensures-ok _ _ (inl (made, (λ _. e), λ a. inl (held a))))
            λ now. Ensures-insert_row publications _ _ _ _ λ _ _.
              Ensures-put_row source_sets _ _ _ _ λ _. Ensures-insert_row audits _ _ _ _ λ _ _.
                Ensures-ok _ _
                  (inl (made, (λ y. absurd (false≢true (sym now ∙ y))), λ a. inl (held a)))

  pub publish_items_lem :
      Ensures Answer (publish_items enc w id set members items excluded automatic preview d)
  unfolding publish_items
  publish_items_lem =
      Ensures-when (is_empty items) _ _ d (λ y. nothing y)
        λ _.
          Ensures-guard (not (automatic && is_withheld enc w set members items excluded)) _ _ d
            λ held.
              Ensures-when _ _ _ d (λ y. kept (ground arith) (ground arith))
                λ _. released λ a. ground arith
