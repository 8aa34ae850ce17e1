-- ===== src/Service/Leaving/Pointed.antt =====
-- Leaving an aggregate and withdrawing it break no pointer of a set.
use shadow_relay.Prelude.{String, sym, refl}
use shadow_relay.Store.Op.{state}
use shadow_relay.Store.Op.Ensures.{Ensures-ok, Ensures-when, write-keeps}
use shadow_relay.Store.Rows.Rules.{
  Ensures-get_row, Ensures-put_row, Ensures-insert_row, Ensures_insert_row_last,
}
use shadow_relay.Model.Database.{Database, source_sets, publications, audits}
use shadow_relay.Service.Draws.{Draws, audit}
use shadow_relay.Service.Publishing.{Encoding}
use shadow_relay.Service.Publishing.Pointers.{IsPointed, Pointed-advance}
use shadow_relay.Service.Leaving.{withdraw_aggregate_tx, withdraw_aggregate}

-- withdrawing an aggregate, whether it succeeds or fails, keeps every source set under its own id
-- and its current and previous publication, where it has them, publications of that set that are
-- in the database.
pub withdraw_aggregate-IsPointed :
    (enc : Encoding) (w : Draws) (set_id : String) (d : Database)
    → IsPointed d
    → IsPointed (state (withdraw_aggregate enc w set_id d))
unfolding withdraw_aggregate withdraw_aggregate_tx audit
withdraw_aggregate-IsPointed enc w set_id d start = write-keeps IsPointed _ d start λ h.
    Ensures-get_row source_sets _ _ d λ s row.
      Ensures-when _ _ _ d (λ _. Ensures-ok _ _ h)
        λ _.
          Ensures-when _ _ _ d (λ _. Ensures-ok _ _ h)
            λ _. Ensures-insert_row publications _ _ _ d λ fresh _.
              Ensures-put_row source_sets _ _ _ _ λ _. Ensures_insert_row_last audits _ _ _ λ _ _.
                Pointed-advance d.source_sets d.publications set_id _ s _ _ h row fresh
                  (sym (h.each set_id s row).named) refl refl refl
