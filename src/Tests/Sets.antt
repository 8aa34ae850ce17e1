-- ===== src/Tests/Sets.antt =====
-- The theorem on saved sets at the inputs of Tests/Fixtures.
use shadow_relay.Prelude.{◌≡◌, none, some, refl, [], trim_space, trim_left, trim_right}
use shadow_relay.Store.Table.{get, put, replace, place}
use shadow_relay.Store.Op.{state, write, Outcome, ok, err, ◌>>=◌, guard, when◌run◌or◌}
use shadow_relay.Store.Rows.{get_row, put_row, insert_row}
use shadow_relay.Model.Publication.{SourceSet}
use shadow_relay.Model.Database.{Database}
use shadow_relay.Security.{Urls}
use shadow_relay.Service.Draws.{audit}
use shadow_relay.Service.Bindings.{is_name}
use shadow_relay.Service.Publishing.Pointers.{IsPointed}
use shadow_relay.Service.SourceSets.{
  check_rules, validate_channel_rules, is_member_ok, are_limits_ok, check_members, with_history,
  save_set_tx, save_set,
}
use shadow_relay.Service.SourceSets.Members.{AreValid}
use shadow_relay.Service.SourceSets.Pointed.{save_set-AreValid}
use shadow_relay.Tests.Fixtures.{draws, set, database, database-IsPointed}

abbrev urls : Urls
urls = record { parse = λ s. none; to_lower = λ s. s }

abbrev saved_by : Outcome Database SourceSet → SourceSet
saved_by (ok s t) = s
saved_by (err e t) = set

abbrev saved : SourceSet
saved = saved_by (save_set urls draws "set" set database)

abbrev after_save : Database
after_save = state (save_set urls draws "set" set database)

saving_succeeds : save_set urls draws "set" set database ≡ ok saved after_save
unfolding save_set save_set_tx with_history check_members is_member_ok are_limits_ok check_rules
    validate_channel_rules is_name trim_space trim_left trim_right get put replace place get_row
    put_row insert_row audit ◌>>=◌ guard when◌run◌or◌ write
saving_succeeds = refl

save_set-AreValid_example :
    IsPointed after_save
    × AreValid database [] saved.members
    × (get after_save.source_sets saved.id ≡ some saved)
save_set-AreValid_example =
    save_set-AreValid urls draws "set" set saved database after_save database-IsPointed
      saving_succeeds
