-- ===== src/Service/Draws.antt =====
-- What an operation takes from the clock and the random source (model.ID, model.Now), and the
-- audit trail (`audit` of internal/service/service.go).
use text.Mathlib.TextLemmas.{append-eq-nil_iff}
use shadow_relay.Prelude.{◌≡◌, ◌≢◌, arith, eq_iff, ℕ, String, ◌<>◌}
use shadow_relay.Prelude.Int.{ℤ}
use shadow_relay.Store.Op.{Op}
use shadow_relay.Store.Rows.{insert_row}
use shadow_relay.Model.Database.{Database, audits}

-- The readings of the clock within one operation are taken to be equal.
pub record Draws : Type 0 where
  -- `model.Now()`
  pub now : String
  -- `time.Now()` in seconds
  pub clock : ℕ
  -- `time.Now().Add(… minutes).UTC().Format(time.RFC3339)`
  pub later : ℤ → String
  -- the hexadecimal text of the n-th random read
  pub random : ℕ → String
  -- `security.Token()`
  pub token : String

-- The n-th call of `model.ID(prefix)` in an operation.
abbrev pub new_id : Draws → String → ℕ → String
new_id w prefix n = prefix <> "_" <> w.random n

unfoldable pub audit : Draws → ℕ → String → String → Op Database Unit
audit w n action target =
    insert_row audits (new_id w "audit" n)
      (record { id = new_id w "audit" n; action = action; target_id = target; created_at = w.now })

-- No generated id is empty.
pub new_id-ne : (w : Draws) (prefix : String) (n : ℕ) → new_id w prefix n ≢ ""
new_id-ne w prefix n e =
    let rest : "_" <> w.random n ≡ "" = (append-eq-nil_iff.0 e).1 in
    let dash : ◌≡◌ {A = String} "_" "" = (append-eq-nil_iff.0 rest).0 in
    ground (arith, eq_iff "_" "", dash)
