-- ===== src/Service/Aggregates/Membership.antt =====
-- A source joins one aggregate and leaves all others.
use mathlib.Core.Path.{subst}
use shadow_relay.Prelude.{
  ℕ, ◌+◌, String, true, false, ◌&&◌, ◌≡◌, ◌⊎◌, inl, inr, refl, sym, ap, ◌∙◌, some, List, [], ◌∷◌,
  ◌++◌, arith, ◌==◌, eq_refl, Bool-cases, if◌then◌else◌,
}
use shadow_relay.Store.Table.{Table, get, put, rows, put_cases}
use shadow_relay.Store.Op.Ensures.{Ensures, Ensures-ok, Ensures-when, Ensures-bind, Ensures-weaken}
use shadow_relay.Store.Rows.Rules.{Ensures_put_row_last, Ensures-list_rows}
use shadow_relay.Model.Publication.{Member, SourceSet}
use shadow_relay.Model.Database.{Database, source_sets}
use shadow_relay.Service.Draws.{Draws}
use shadow_relay.Service.Buckets.{is_aggregate_set_id}
use shadow_relay.Service.Selection.Eligibility.{Each}
use shadow_relay.Service.Aggregates.{
  is_member, without_member, stripped, strip_sets, strip_membership, aggregate_member,
}

abbrev pub IsAbsent : String → SourceSet → Type 0
IsAbsent sid s = is_member sid s.members ≡ false

-- The sets stand under their own ids.
pub record Named (t : Table SourceSet) : Type 0 where
  pub each : (k : String) (s : SourceSet) → get t k ≡ some s → s.id ≡ k

without_member-IsAbsent :
    (sid : String) (ms : List Member) → is_member sid (without_member sid ms) ≡ false
unfolding is_member without_member
without_member-IsAbsent sid [] = refl
without_member-IsAbsent sid (m ∷ ms) = elim (Bool-cases (m.source_id == sid)) [
  | inl y ↦ rw y (without_member-IsAbsent sid ms)
  | inr n ↦ rw (n, n) (without_member-IsAbsent sid ms)
]

-- What holds of all rows holds of the one that is read.
Each-rows :
    (P : SourceSet → Type 0) (t : Table SourceSet) (k : String) (s : SourceSet)
    → Each P (rows t)
    → get t k ≡ some s
    → P s
unfolding rows get
Each-rows P [] k s h e = cc
Each-rows P ((i, c) ∷ t) k s h e = elim (Bool-cases (i == k)) [
  | inl y ↦ subst P (ground arith) h.0
  | inr n ↦ Each-rows P t k s h.1 (ground arith)
]

-- A set that an aggregate has after the loop lost the source, or was passed over by it.
record Stripped (sid : String) (ss : List SourceSet) (d t : Table SourceSet) : Type 0 where
  pub named : Named t
  pub each :
      (k : String) (u : SourceSet)
      → get t k ≡ some u
      → is_aggregate_set_id k ≡ true
      → IsAbsent sid u ⊎ ((get d k ≡ some u) × Each (λ s. s ≡ u → IsAbsent sid u) ss)

pub Named-put : (t : Table SourceSet) (s : SourceSet) → Named t → Named (put t s.id s)
Named-put t s h = record {
  each = put_cases (λ k u. u.id ≡ k) t s.id s refl λ k u _ e. h.each k u e;
}

-- A set that the loop passes over is no aggregate, or has not the source.
passed_over :
    (sid : String) (s u : SourceSet) (k : String)
    → (is_aggregate_set_id s.id && is_member sid s.members) ≡ false
    → u.id ≡ k
    → is_aggregate_set_id k ≡ true
    → s ≡ u
    → IsAbsent sid u
passed_over sid s u k n named agg same =
    let there : is_aggregate_set_id s.id ≡ true =
      subst (λ x. is_aggregate_set_id x ≡ true) (sym (ap (λ x. x.id) same ∙ named)) agg in
    subst (IsAbsent sid) same (ground (arith, n, there))

strip_sets-Stripped :
    (w : Draws) (sid : String) (ss : List SourceSet) (d : Database)
    → Named d.source_sets
    → Ensures (λ _ t. Stripped sid ss d.source_sets t.source_sets) (strip_sets w sid ss d)
unfolding strip_sets stripped
strip_sets-Stripped w sid [] d h =
    Ensures-ok _ d (record { named = h; each = λ k u e _. inr (e, tt) })
strip_sets-Stripped w sid (s ∷ ss) d h =
    Ensures-bind {P = λ _ t. Stripped sid (s ∷ []) d.source_sets t.source_sets} _ _ d
      (Ensures-when (is_aggregate_set_id s.id && is_member sid s.members) _ _ d
        (λ _. Ensures_put_row_last source_sets _ _ d λ _. record {
          named = Named-put d.source_sets (stripped w sid s) h;
          each = λ k u e _.
              put_cases
                (λ k u.
                  IsAbsent sid u
                  ⊎ ((get d.source_sets k ≡ some u) × Each (λ s. s ≡ u → IsAbsent sid u) (s ∷ [])))
                d.source_sets s.id (stripped w sid s) (inl (without_member-IsAbsent sid s.members))
                (λ j v ne f.
                  inr (f, ((λ same. absurd (ne (ap (λ x. x.id) same ∙ h.each j v f))), tt)))
                k u e;
        })
        (λ n. Ensures-ok _ d (record {
          named = h;
          each =
              λ k u e agg. inr (e, ((λ same. passed_over sid s u k n (h.each k u e) agg same), tt));
        })))
      λ _ t first. Ensures-weaken (strip_sets-Stripped w sid ss t first.named) λ _ t' rest. record {
        named = rest.named;
        each = λ k u e agg. elim (rest.each k u e agg) [
          | inl gone ↦ inl gone
          | inr (f, others) ↦ elim (first.each k u f agg) [
            | inl gone ↦ inl gone
            | inr (g, mine) ↦ inr (g, (mine.0, others))
          ]
        ];
      }

-- After the loop over all sets no aggregate has the source.
unfoldable pub IsStripped : String → Table SourceSet → Type 0
IsStripped sid t =
    Named t
    × ((k : String) (u : SourceSet)
        → get t k ≡ some u
        → is_aggregate_set_id k ≡ true
        → IsAbsent sid u)

pub strip_membership-IsStripped :
    (w : Draws) (sid : String) (d : Database)
    → Named d.source_sets
    → Ensures (λ _ t. IsStripped sid t.source_sets) (strip_membership w sid d)
unfolding strip_membership IsStripped
strip_membership-IsStripped w sid d h = Ensures-list_rows source_sets _ d (
    Ensures-weaken (strip_sets-Stripped w sid (rows d.source_sets) d h) λ _ t r. (
      r.named,
      λ k u e agg. elim (r.each k u e agg) [
        | inl gone ↦ gone
        | inr (f, all) ↦ Each-rows (λ s. s ≡ u → IsAbsent sid u) d.source_sets k u all f refl
      ],
    ))

-- How often a source stands among the members.
unfoldable pub count_member : String → List Member → ℕ
count_member sid [] = 0
count_member sid (m ∷ ms) = (if m.source_id == sid then 1 else 0) + count_member sid ms

pub count_member-joined :
    (sid : String) (ms : List Member)
    → is_member sid ms ≡ false
    → count_member sid (ms ++ aggregate_member sid ∷ []) ≡ 1
unfolding count_member is_member
count_member-joined sid [] h = ground (arith, eq_refl sid)
count_member-joined sid (m ∷ ms) h = ground (arith, count_member-joined sid ms)
