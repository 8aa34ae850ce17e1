-- ===== src/Service/SourceSets/Pointed.antt =====
-- Saving a set: its members are valid, and the pointers stay good.
use mathlib.Core.Path.{subst}
use shadow_relay.Prelude.{
  String, ◌≡◌, refl, sym, ◌∙◌, if◌then◌else◌, some, [], arith, ◌==◌, eq_refl, List, ◌∷◌,
}
use shadow_relay.Store.Table.{get, get-put}
use shadow_relay.Store.Op.{ok}
use shadow_relay.Store.Op.Ensures.{
  Ensures, Ensures-ok, Ensures-when, Ensures-guard, Ensures-bind, Ensures-result, Ensures-write,
}
use shadow_relay.Store.Rows.Rules.{Ensures-get_row, Ensures-put_row, Ensures-insert_row}
use shadow_relay.Model.Publication.{ChannelRule, SourceSet}
use shadow_relay.Model.Database.{Database, source_sets, audits}
use shadow_relay.Security.{Urls}
use shadow_relay.Service.Draws.{Draws, audit, new_id}
use shadow_relay.Service.Publishing.Pointers.{IsPointed, SetOk, Pointed-put, Released}
use shadow_relay.Service.SourceSets.{
  with_history, save_set_tx, save_set, requested, check_rules, validate_channel_rules,
}
use shadow_relay.Service.SourceSets.Members.{AreValid, check_members-AreValid}

-- The set that goes into the transaction has its own id, and no pointers yet.
record IsBlank (id : String) (w : Draws) (s : SourceSet) : Type 0 where
  pub named : s.id ≡ (if id == "" then new_id w "set" 0 else id)
  pub current : s.current_publication ≡ ""
  pub previous : s.previous_publication ≡ ""

-- The set with its history, at its own id.
with_history-SetOk :
    (id expected : String) (w : Draws) (s : SourceSet) (d : Database)
    → IsPointed d
    → IsBlank id w s
    → Ensures
        (λ u t. (t ≡ d) × SetOk d.publications u.id u × (u.id ≡ s.id))
        (with_history id expected s d)
unfolding with_history
with_history-SetOk id expected w s d h blank =
    Ensures-when (id == "") _ _ d
      (λ _. Ensures-ok _ d (
        refl,
        record {
          named = refl;
          now = λ n. absurd (n blank.current);
          before = λ n. absurd (n blank.previous);
        },
        refl,
      ))
      λ old_. Ensures-get_row source_sets _ _ d λ old row. Ensures-guard _ _ _ d λ _.
        let known = h.each id old row in
        let same : s.id ≡ id = blank.named ∙ (rw old_ refl) in
        Ensures-ok _ d (
          refl,
          record {
            named = refl;
            now = λ n.
                subst (λ k. Released d.publications k old.current_publication) (sym same)
                  (known.now n);
            before = λ n.
                subst (λ k. Released d.publications k old.previous_publication) (sym same)
                  (known.before n);
          },
          refl,
        )

save_set_tx_lem :
    (urls : Urls) (w : Draws) (id expected : String) (s : SourceSet) (d : Database)
    → IsPointed d
    → IsBlank id w s
    → Ensures
        (λ u t. IsPointed t × AreValid d [] u.members × (get t.source_sets u.id ≡ some u))
        (save_set_tx urls w id expected s d)
unfolding save_set_tx audit
save_set_tx_lem urls w id expected s d h blank =
    Ensures-bind {P = λ u t. (t ≡ d) × SetOk d.publications u.id u × (u.id ≡ s.id)} _ _ d
      (with_history-SetOk id expected w s d h blank)
      λ u t (e, good, _). rw e (
        Ensures-bind {P = λ ms t. (t ≡ d) × AreValid d [] ms} _ _ d
          (check_members-AreValid d s.members [])
          λ ms t' (e', valid). rw e' (
            Ensures-put_row source_sets _ _ _ d λ _. Ensures-insert_row audits _ _ _ _ λ _ _.
              Ensures-ok _ _ (
                Pointed-put d.source_sets d.publications u.id _ h good,
                valid,
                ground (
                  arith,
                  get-put d.source_sets u.id u.id (record u { members = ms }),
                  eq_refl u.id,
                ),
              )))

check_rules-reads :
    (urls : Urls) (rs : List ChannelRule) (seen : List String) (d : Database)
    → Ensures (λ _ t. t ≡ d) (check_rules urls seen rs d)
unfolding check_rules
check_rules-reads urls [] seen d = Ensures-ok _ d refl
check_rules-reads urls (r ∷ rs) seen d =
    Ensures-guard _ _ _ d
      λ _. Ensures-guard _ _ _ d λ _. Ensures-guard _ _ _ d λ _. check_rules-reads urls rs _ d

-- where saving a set succeeds and all pointers were good, they still are, the set is stored under
-- its id as returned, its members are of different sources that are in the database, and their
-- roles, scores, priorities, weights, times and media types are within their ranges.
pub save_set-AreValid :
    (urls : Urls) (w : Draws) (id : String) (set s : SourceSet) (d t : Database)
    → IsPointed d
    → save_set urls w id set d ≡ ok s t
    → IsPointed t × AreValid d [] s.members × (get t.source_sets s.id ≡ some s)
unfolding save_set validate_channel_rules
save_set-AreValid urls w id set s d t h e =
    Ensures-result
      {Q = λ u t. IsPointed t × AreValid d [] u.members × (get t.source_sets u.id ≡ some u)} _
      (Ensures-guard _ _ _ d λ _. Ensures-guard _ _ _ d λ _.
        Ensures-bind {P = λ _ t. t ≡ d} _ _ d
          (Ensures-guard _ _ _ d λ _. check_rules-reads urls set.channel_rules [] d)
          λ _ t e. rw e (
            Ensures-guard _ _ _ d λ _. Ensures-write _ d (
              save_set_tx_lem urls w id set.updated_at (requested urls w id set) d h
                (record { named = refl; current = refl; previous = refl }))))
      e
