-- ===== src/Service/Selection/Gathering.antt =====
-- The loop over the members: it chooses only eligible sources, and forgets nobody.
use mathlib.Core.List.{append_assoc, append-nil}
use mathlib.Core.Path.{subst}
use shadow_relay.Store.Op.{Op}
use shadow_relay.Prelude.{
  eq_refl, String, true, ◌≡◌, inl, inr, refl, sym, List, [], ◌∷◌, ◌++◌, some, arith, ◌∙◌,
}
use shadow_relay.Store.Table.{Table, get, has, put, get-put}
use shadow_relay.Store.Op.Ensures.{Ensures, Ensures-ok, Ensures-bind, Ensures-weaken}
use shadow_relay.Model.Publication.{Member}
use shadow_relay.Model.Database.{Database}
use shadow_relay.Service.Selection.{Selected, Choice, left_out, chosen, gather}
use shadow_relay.Service.Selection.Eligibility.{
  Found, choose_lem, Each, Chosen, Covered, Picks, done, pass, pick,
}

Chosen-keep :
    (m : Member) (ss : List Selected) (s : Selected) → Chosen m ss → Chosen m (ss ++ s ∷ [])
Chosen-keep m [] s h = absurd h
Chosen-keep m (x ∷ xs) s (inl e) = inl e
Chosen-keep m (x ∷ xs) s (inr h) = inr (Chosen-keep m xs s h)

Chosen-last :
    (m : Member) (ss : List Selected) (s : Selected) → s.member ≡ m → Chosen m (ss ++ s ∷ [])
Chosen-last m [] s e = inl e
Chosen-last m (x ∷ xs) s e = inr (Chosen-last m xs s e)

pub has-put : (t : Table String) (k j r : String) → has t j ≡ true → has (put t k r) j ≡ true
has-put t k j r h = ground (arith, get-put t k j r)

pub has-put-same : (t : Table String) (k r : String) → has (put t k r) k ≡ true
has-put-same t k r = ground (arith, get-put t k k r, eq_refl k)

record Gathered (d : Database) (ms : List Member) (items : List Selected) (ex : Table String)
    (items' : List Selected) (ex' : Table String) : Type 0 where
  pub more : List Selected
  pub appended : items' ≡ items ++ more
  pub picks : Picks d ms more
  pub kept : (m : Member) → Covered d items ex m → Covered d items' ex' m
  pub covered : Each (Covered d items' ex') ms

abbrev Gathers : Database → List Member → List Selected → Table String → Type 0
Gathers d ms items ex =
    Ensures (λ r t. (t ≡ d) × Gathered d ms items ex r.0 r.1) (gather ms items ex d)

-- One round, and then the rest of the loop.
Gathered-step :
    (d : Database) (m : Member) (ms : List Member) (items : List Selected) (ex : Table String)
    → ((items : List Selected) (ex : Table String) → Gathers d ms items ex)
    → (c : Choice) → Found d m c
    → Ensures
        (λ r t. (t ≡ d) × Gathered d (m ∷ ms) items ex r.0 r.1)
        ((elim c as (λ _. Op Database (List Selected × Table String)) [
          | left_out id reason ↦ gather ms items (put ex id reason)
          | chosen s ↦ gather ms (items ++ s ∷ []) ex
        ])
          d)
Gathered-step d m ms items ex rest (left_out id reason) (v, row, same) =
    Ensures-weaken (rest items (put ex id reason)) λ r t (e, g). (
      e,
      record {
        more = g.more;
        appended = g.appended;
        picks = pass g.picks;
        kept = λ n (u, urow, c).
            g.kept n
              (u, urow, elim c [ inl x ↦ inl (has-put ex id u.id reason x) | inr y ↦ inr y ]);
        covered = (
          g.kept m (
            v,
            row,
            inl (
                subst (λ k. has (put ex id reason) k ≡ true) (sym same)
                  (has-put-same ex id reason)),
          ),
          g.covered,
        );
      },
    )
Gathered-step d m ms items ex rest (chosen s) (same, ok) =
    Ensures-weaken (rest (items ++ s ∷ []) ex) λ r t (e, g). (
      e,
      record {
        more = s ∷ g.more;
        appended = g.appended ∙ append_assoc items (s ∷ []) g.more;
        picks = subst (λ x. Picks d (x ∷ ms) (s ∷ g.more)) same (pick ok g.picks);
        kept = λ n (u, urow, c).
            g.kept n (u, urow, elim c [ inl x ↦ inl x | inr y ↦ inr (Chosen-keep n items s y) ]);
        covered = (
          g.kept m (
            s.source,
            subst (λ x. get d.sources x.source_id ≡ some s.source) same ok.source_row,
            inr (Chosen-last m items s same),
          ),
          g.covered,
        );
      },
    )

gathered :
    (d : Database) (ms : List Member) (items : List Selected) (ex : Table String)
    → Gathers d ms items ex
unfolding gather
gathered d [] items ex = Ensures-ok _ d (
  refl,
  record {
    more = [];
    appended = sym (append-nil items);
    picks = done;
    kept = λ m h. h;
    covered = tt;
  },
)
gathered d (m ∷ ms) items ex =
    Ensures-bind {P = λ c t. (t ≡ d) × Found d m c} _ _ d (choose_lem d m)
      λ c t (e, found). rw e (Gathered-step d m ms items ex (gathered d ms) c found)

-- The loop over all members reads the database, picks only eligible sources, each for a member of
-- its own, and accounts for every member.
pub gather_lem :
    (d : Database) (ms : List Member)
    → Ensures (λ r t. (t ≡ d) × Picks d ms r.0 × Each (Covered d r.0 r.1) ms) (gather ms [] [] d)
gather_lem d ms =
    Ensures-weaken (gathered d ms [] [])
      λ r t (e, g). (e, subst (Picks d ms) (sym g.appended) g.picks, g.covered)
