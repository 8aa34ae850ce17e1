-- ===== src/Service/SourceSets/Members.antt =====
-- What is known of the members of a set that has been saved.
use shadow_relay.Prelude.{
  String, true, false, not, ◌≡◌, refl, List, [], ◌∷◌, arith, contains, all, Bool-cases, inl, inr,
}
use shadow_relay.Prelude.Int.{pos, eqz}
use shadow_relay.Store.Table.{has}
use shadow_relay.Store.Op.Ensures.{Ensures, Ensures-ok, Ensures-guard, Ensures-bind}
use shadow_relay.Store.Rows.Rules.{Ensures-get_row}
use shadow_relay.Model.Publication.{Member}
use shadow_relay.Model.Database.{Database, sources}
use shadow_relay.Service.SourceSets.{
  media_types, is_member_ok, are_limits_ok, with_role, with_limits, check_members,
}

-- A member within the limits, of a source that is there.
pub record ValidMember (d : Database) (m : Member) : Type 0 where
  pub known : has d.sources m.source_id ≡ true
  pub in_range : is_member_ok m ≡ true
  pub limited : are_limits_ok m ≡ true
  pub media : all (contains media_types) m.media_types ≡ true

-- Valid members, and no source twice nor among those seen.
abbrev pub AreValid : Database → List String → List Member → Type 0
AreValid d seen [] = Unit
AreValid d seen (m ∷ ms) =
    ValidMember d m × (contains seen m.source_id ≡ false) × AreValid d (m.source_id ∷ seen) ms

-- The default weight is in its range.
with_limits_ok : (m : Member) → is_member_ok m ≡ true → is_member_ok (with_limits m) ≡ true
unfolding is_member_ok
with_limits_ok m h = elim (Bool-cases (eqz m.weight (pos 0))) [
  | inl y ↦ rw y (ground arith)
  | inr n ↦ rw n h
]

pub check_members-AreValid :
    (d : Database) (ms : List Member) (seen : List String)
    → Ensures (λ out t. (t ≡ d) × AreValid d seen out) (check_members seen ms d)
unfolding check_members
check_members-AreValid d [] seen = Ensures-ok _ d (refl, tt)
check_members-AreValid d (m ∷ ms) seen =
    Ensures-guard (not (contains seen m.source_id)) _ _ d λ fresh.
      Ensures-get_row sources _ _ d λ v row.
        Ensures-guard (is_member_ok (with_role m)) _ _ d λ range. Ensures-guard _ _ _ d λ limited.
          Ensures-guard (all (contains media_types) m.media_types) _ _ d λ media.
            Ensures-bind {P = λ out t. (t ≡ d) × AreValid d (m.source_id ∷ seen) out} _ _ d
              (check_members-AreValid d ms (m.source_id ∷ seen))
              λ out t (e, valid). Ensures-ok _ t (
                e,
                (
                  record {
                    known = ground (arith, row);
                    in_range = with_limits_ok (with_role m) range;
                    limited = limited;
                    media = media;
                  },
                  ground arith,
                  valid,
                ),
              )
