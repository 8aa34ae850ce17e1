-- ===== src/Tests/Publications.antt =====
-- The theorems on publications at the inputs of Tests/Fixtures.
use shadow_relay.Prelude.{true, false, some, refl, ◌≡◌, ◌⊎◌, [], ◌∷◌}
use shadow_relay.Store.Table.{get, put, replace, place, cons_cases, nil_cases}
use shadow_relay.Store.Op.{state, write, Outcome, ok, err, ◌>>=◌, guard, when◌run◌or◌}
use shadow_relay.Store.Rows.{get_row, put_row, insert_row}
use shadow_relay.Model.Publication.{Publication}
use shadow_relay.Model.Database.{Database}
use shadow_relay.Service.Draws.{audit}
use shadow_relay.Service.Selection.{
  sort_members, insert_member, gather, choose, consider, place_source, exclusion_reason, is_unfit,
  filtered, is_empty,
}
use shadow_relay.Service.Publishing.{
  compile, source_revisions, publish_items, release_publication, is_withheld,
  prepare_publication_tx, prepare_publication, rollback_publication,
}
use shadow_relay.Service.Publishing.Safety.{IsCurrent}
use shadow_relay.Service.Publishing.Answers.{
  Faithful, WithinPolicy, prepare_publication-Faithful, automatic_publication,
}
use shadow_relay.Service.Publishing.Pointers.{
  IsPointed, SetOk, prepare_publication-IsPointed, rollback_publication-IsPointed,
}
use shadow_relay.Service.Leaving.{withdraw_aggregate}
use shadow_relay.Service.Leaving.Pointed.{withdraw_aggregate-IsPointed}
use shadow_relay.Tests.Fixtures.{draws, encoding, set, publication, database, database-IsPointed}

prepare_publication-IsPointed_example :
    IsPointed (state (prepare_publication encoding draws "set" false false database))
prepare_publication-IsPointed_example =
    prepare_publication-IsPointed encoding draws "set" false false database database-IsPointed

rollback_publication-IsPointed_example :
    IsPointed (state (rollback_publication draws "pub_1" database))
rollback_publication-IsPointed_example =
    rollback_publication-IsPointed draws "pub_1" database database-IsPointed

set_row : get database.source_sets "set" ≡ some set
unfolding get
set_row = refl

abbrev made_by : Outcome Database Publication → Publication
made_by (ok p t) = p
made_by (err e t) = publication

abbrev published : Publication
published = made_by (prepare_publication encoding draws "set" false false database)

publishing_succeeds :
    prepare_publication encoding draws "set" false false database
    ≡ ok published (state (prepare_publication encoding draws "set" false false database))
unfolding get put replace place write ◌>>=◌ guard when◌run◌or◌ get_row put_row insert_row audit
    sort_members insert_member gather choose consider place_source exclusion_reason is_unfit
    filtered compile source_revisions publish_items release_publication is_withheld
    prepare_publication_tx prepare_publication
publishing_succeeds = refl

prepare_publication-Faithful_example : Faithful database set published
prepare_publication-Faithful_example =
    prepare_publication-Faithful encoding draws "set" false database
      (state (prepare_publication encoding draws "set" false false database)) set published set_row
      publishing_succeeds

abbrev automatic : Publication
automatic = made_by (prepare_publication encoding draws "set" true false database)

automatic_succeeds :
    prepare_publication encoding draws "set" true false database
    ≡ ok automatic (state (prepare_publication encoding draws "set" true false database))
unfolding get put replace place write ◌>>=◌ guard when◌run◌or◌ get_row put_row insert_row audit
    sort_members insert_member gather choose consider place_source exclusion_reason is_unfit
    filtered compile source_revisions publish_items release_publication is_withheld
    prepare_publication_tx prepare_publication
automatic_succeeds = refl

automatic_publication_example :
    IsCurrent database set automatic
      (state (prepare_publication encoding draws "set" true false database))
    ⊎ (Faithful database set automatic
        × (WithinPolicy database set automatic ⊎ (is_empty set.members ≡ true)))
automatic_publication_example =
    automatic_publication encoding draws "set" database
      (state (prepare_publication encoding draws "set" true false database)) set automatic set_row
      automatic_succeeds

-- The set has lost its last member.
abbrev emptied : Database
emptied = record database { source_sets = ("set", record set { members = [] }) ∷ [] }

emptied-IsPointed : IsPointed emptied
unfolding get
emptied-IsPointed = record {
  each =
      cons_cases (SetOk emptied.publications) "set" (record set { members = [] }) []
        (record {
          named = refl;
          now = λ _. (publication, refl, refl);
          before = λ n. absurd (n refl);
        })
        (nil_cases _);
}

withdraw_aggregate-IsPointed_example :
    IsPointed (state (withdraw_aggregate encoding draws "set" emptied))
withdraw_aggregate-IsPointed_example =
    withdraw_aggregate-IsPointed encoding draws "set" emptied emptied-IsPointed
