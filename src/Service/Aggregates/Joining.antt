-- ===== src/Service/Aggregates/Joining.antt =====
-- The source that joins an aggregate is there once, and nowhere else.
use mathlib.Core.Path.{subst}
use shadow_relay.Prelude.{
  String, true, ◌≡◌, ◌≢◌, inl, inr, refl, sym, some, List, [], ◌∷◌, ◌++◌, arith, ◌==◌, eq_refl,
  Bool-cases, Option-cases,
}
use shadow_relay.Store.Table.{Table, get, put, get-put, put_cases}
use shadow_relay.Store.Op.{ok}
use shadow_relay.Store.Op.Ensures.{
  Ensures, Ensures-ok, Ensures-when, Ensures-bind, Ensures-weaken, Ensures-result, write-eq-ok,
}
use shadow_relay.Store.Rows.Rules.{Ensures-put_row, Ensures-insert_row, Ensures_insert_row_last}
use shadow_relay.Model.Publication.{SourceSet}
use shadow_relay.Model.Database.{Database, source_sets, bindings, secrets, audits}
use shadow_relay.Service.Draws.{Draws, audit}
use shadow_relay.Service.Platform.{Platform}
use shadow_relay.Service.Buckets.{
  Bucket, is_aggregate_set_id, find_bucket, bucket_by_type, aggregate_buckets, aggregate_type_for,
}
use shadow_relay.Model.Source.{Source}
use shadow_relay.Service.Aggregates.{
  is_member, create_set, ensure_set, ensure_binding, aggregate_member, upsert_tx,
  upsert_aggregate_member,
}
use shadow_relay.Service.Aggregates.Membership.{
  IsAbsent, Named, Named-put, IsStripped, strip_membership-IsStripped, count_member,
  count_member-joined,
}

IsStripped-put :
    (sid : String) (t : Table SourceSet) (s : SourceSet)
    → IsStripped sid t
    → IsAbsent sid s
    → IsStripped sid (put t s.id s)
unfolding IsStripped
IsStripped-put sid t s h gone = (
  Named-put t s h.0,
  put_cases (λ k u. is_aggregate_set_id k ≡ true → IsAbsent sid u) t s.id s (λ _. gone)
      (λ j u _ e agg. h.1 j u e agg),
)

ensure_set_lem :
    (w : Draws) (def : Bucket) (sid : String) (d : Database)
    → is_aggregate_set_id def.slug ≡ true
    → IsStripped sid d.source_sets
    → Ensures
        (λ s t. IsStripped sid t.source_sets × (s.id ≡ def.slug) × IsAbsent sid s)
        (ensure_set w def d)
unfolding ensure_set create_set audit is_member IsStripped
ensure_set_lem w def sid d agg h = elim (Option-cases (get d.source_sets def.slug)) [
  | inr (s, e) ↦
      rw (e, ensure_set) (Ensures-ok s d (h, h.0.each def.slug s e, h.1 def.slug s e agg))
  | inl e ↦
      rw (e, ensure_set)
        (Ensures-put_row source_sets _ _ _ d λ _.
          Ensures-insert_row audits _ _ _ _
            λ _ _. Ensures-ok _ _ (IsStripped-put sid d.source_sets _ h refl, refl, refl))
]

ensure_binding-sets :
    (pf : Platform) (w : Draws) (century slug : String) (d : Database)
    → Ensures (λ _ t. t.source_sets ≡ d.source_sets) (ensure_binding pf w century slug d)
unfolding ensure_binding audit
ensure_binding-sets pf w century slug d =
    Ensures-when _ _ _ d (λ _. Ensures-ok _ _ refl)
      λ _.
        Ensures-insert_row bindings _ _ _ d λ _ _.
          Ensures-put_row secrets _ _ _ _ λ _. Ensures_insert_row_last audits _ _ _ λ _ _. refl

-- The source stands once in the set `slug`, and in no other aggregate.
pub record JoinedOnce (sid slug : String) (t : Table SourceSet) : Type 0 where
  pub set : SourceSet
  pub row : get t slug ≡ some set
  pub once : count_member sid set.members ≡ 1
  pub nowhere_else :
      (k : String) (u : SourceSet)
      → get t k ≡ some u
      → is_aggregate_set_id k ≡ true
      → k ≢ slug
      → IsAbsent sid u

joined :
    (sid slug : String) (t : Table SourceSet) (s j : SourceSet)
    → IsStripped sid t
    → s.id ≡ slug
    → IsAbsent sid s
    → j.members ≡ s.members ++ aggregate_member sid ∷ []
    → JoinedOnce sid slug (put t s.id j)
unfolding IsStripped
joined sid slug t s j h named gone members = record {
  set = j;
  row = ground (arith, named, get-put t s.id slug j, eq_refl slug);
  once = rw members (count_member-joined sid s.members gone);
  nowhere_else =
      put_cases (λ k u. is_aggregate_set_id k ≡ true → k ≢ slug → IsAbsent sid u) t s.id j
        (λ _ ne. absurd (ne named)) (λ k u _ e agg _. h.1 k u e agg);
}

upsert_tx-JoinedOnce :
    (pf : Platform) (w : Draws) (century : String) (def : Bucket) (sid : String) (d : Database)
    → is_aggregate_set_id def.slug ≡ true
    → Named d.source_sets
    → Ensures (λ _ t. JoinedOnce sid def.slug t.source_sets) (upsert_tx pf w century def sid d)
unfolding upsert_tx audit
upsert_tx-JoinedOnce pf w century def sid d agg h =
    Ensures-bind {P = λ _ t. IsStripped sid t.source_sets} _ _ d
      (strip_membership-IsStripped w sid d h)
      λ _ t1 clean.
        Ensures-bind {P = λ s t. IsStripped sid t.source_sets × (s.id ≡ def.slug) × IsAbsent sid s}
          _ _ t1 (ensure_set_lem w def sid t1 agg clean)
          λ s t2 (still, named, gone). Ensures-put_row source_sets _ _ _ t2 λ _.
            Ensures-insert_row audits _ _ _ _ λ _ _.
              Ensures-weaken (ensure_binding-sets pf w century def.slug _) λ _ t3 same.
                subst (JoinedOnce sid def.slug) (sym same)
                  (joined sid def.slug t2.source_sets s _ still named gone refl)

abbrev EachBucket : List Bucket → Type 0
EachBucket [] = Unit
EachBucket (b ∷ bs) = (is_aggregate_set_id b.slug ≡ true) × EachBucket bs

find_bucket-aggregate :
    (t : String) (bs : List Bucket)
    → EachBucket bs
    → is_aggregate_set_id (find_bucket t bs).slug ≡ true
unfolding find_bucket is_aggregate_set_id
find_bucket-aggregate t [] h = refl
find_bucket-aggregate t (b ∷ bs) h = elim (Bool-cases (b.kind == t)) [
  | inl y ↦ rw y h.0
  | inr n ↦ rw n (find_bucket-aggregate t bs h.1)
]

-- where the sets stand under their own ids and a source joins its aggregate, it is afterwards
-- once among the members of the bucket of its type, and in no other aggregate.
pub upsert_aggregate_member-JoinedOnce :
    (to_lower : String → String) (pf : Platform) (w : Draws) (century : String) (src : Source)
    (d t : Database)
    → Named d.source_sets
    → upsert_aggregate_member to_lower pf w century src d ≡ ok tt t
    → JoinedOnce src.id
        (bucket_by_type (aggregate_type_for to_lower src.protocol src.media_types)).slug
        t.source_sets
unfolding upsert_aggregate_member bucket_by_type is_aggregate_set_id
upsert_aggregate_member-JoinedOnce to_lower pf w century src d t h e =
    Ensures-result {Q = λ _ t. JoinedOnce src.id _ t.source_sets} _
      (upsert_tx-JoinedOnce pf w century _ src.id d
        (find_bucket-aggregate (aggregate_type_for to_lower src.protocol src.media_types)
          aggregate_buckets (refl, (refl, (refl, (refl, (refl, (refl, (refl, (refl, tt)))))))))
        h)
      (write-eq-ok _ d e)
