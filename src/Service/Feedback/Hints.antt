-- ===== src/Service/Feedback/Hints.antt =====
-- A report is a hint: it adds a row of feedback, on a source of a publication that the client may
-- read, and changes nothing else.
use shadow_relay.Prelude.{
  String, true, Option, none, some, List, ◌≡◌, refl, arith, Option-cases, Bool-cases, inl, inr,
  contains,
}
use shadow_relay.Store.Table.{get, put, IsDistinct}
use shadow_relay.Store.Op.{ok}
use shadow_relay.Store.Op.Ensures.{
  Ensures, Ensures-ok, Ensures-err, Ensures-bind, Ensures-guard, Ensures-write, Ensures-result,
}
use shadow_relay.Store.Rows.Rules.{Ensures-get_row, Ensures_put_row_last}
use shadow_relay.Model.Publication.{Artifact, Feedback, Publication}
use shadow_relay.Model.Database.{Database, bindings, publications, feedback}
use shadow_relay.Service.Draws.{Draws}
use shadow_relay.Service.Platform.{Platform}
use shadow_relay.Service.Bindings.{find_by_hash}
use shadow_relay.Service.Bindings.Grants.{
  Grant, Granted, IsWanted, granted, find_binding_lem, wanted_publication_lem,
}
use shadow_relay.Service.Feedback.{
  Reports, is_published, reported_source, require_source, report_feedback, feedback_codes,
}

reported_source-published :
    (rp : Reports) (srcs : List (String × String)) (id s : String)
    → reported_source rp srcs id ≡ some s
    → is_published s srcs ≡ true
unfolding reported_source
reported_source-published rp srcs id s e = elim (Bool-cases (is_published id srcs)) [
  | inl y ↦ ground (arith, e, y)
  | inr n ↦ elim (Option-cases (rp.cut id)) [
    | inl c ↦ ground (arith, e, n, c)
    | inr (parent, c) ↦ ground (arith, e, n, c)
  ]
]

require_source_lem :
    (o : Option String) (d : Database)
    → Ensures (λ s t. (t ≡ d) × (o ≡ some s)) (require_source o d)
unfolding require_source
require_source_lem none d = Ensures-err _ _
require_source_lem (some s) d = Ensures-ok _ _ (refl, refl)

module _ (pf : Platform) (rp : Reports) (w : Draws) where
  -- The right to read behind a report, its row, and what it is about.
  pub record Reported (d : Database) (token : String) (i : Feedback) (t : Database) : Type 0 where
    pub artifact : Artifact
    pub grant : Grant pf w d token i.publication_id "shadow.json" artifact
    pub key : String
    pub row : Feedback
    pub change : t ≡ record d { feedback = put d.feedback key row }
    pub code : contains feedback_codes row.code ≡ true
    pub about : Publication
    pub about_row : get d.publications row.publication_id ≡ some about
    pub published : is_published row.source_id about.source_revisions ≡ true

  report_feedback-Ensures :
      (token : String) (i : Feedback) (d : Database)
      → IsDistinct d.bindings
      → Ensures (λ _ t. Reported d token i t) (report_feedback pf rp w token i d)
  unfolding report_feedback
  report_feedback-Ensures token i d u = Ensures-guard _ _ _ d λ code.
      Ensures-bind {P = Granted pf w d token i.publication_id "shadow.json"} _ _ d
        (granted pf w token i.publication_id "shadow.json" d u)
        λ a t1 (e1, grant). rw e1 (
          Ensures-bind {P = λ k t. (t ≡ d) × (find_by_hash d.bindings (pf.hash token) ≡ some k)} _ _
            d (find_binding_lem pf w token i.publication_id "shadow.json" d)
            λ k t2 (e2, _). rw e2 (
              Ensures-get_row bindings _ _ d λ b _.
                Ensures-bind {P = λ id t. (t ≡ d) × IsWanted d i.publication_id b id} _ _ d
                  (wanted_publication_lem pf w token i.publication_id "shadow.json" d b)
                  λ id t3 (e3, _). rw e3 (
                    Ensures-get_row publications _ _ d λ p row.
                      Ensures-bind _ _ d (require_source_lem _ d) λ s t4 (e4, found). rw e4 (
                        Ensures-write _ d (
                          Ensures_put_row_last feedback _ _ d λ _. record {
                            artifact = a;
                            grant = grant;
                            key = _;
                            row = _;
                            change = refl;
                            code = code;
                            about = p;
                            about_row = row;
                            published =
                                reported_source-published rp p.source_revisions i.source_id s found;
                          })))))

  -- where no id stands twice among the bindings and a report of a client succeeds, its token
  -- grants shadow.json of the publication that it names, or of the current one; all that changed
  -- is one row of feedback, with a known code; and that row is about a source of a publication
  -- that is in the database.
  pub report_feedback-Reported :
      (token : String) (i : Feedback) (d t : Database)
      → IsDistinct d.bindings
      → report_feedback pf rp w token i d ≡ ok tt t
      → Reported d token i t
  report_feedback-Reported token i d t u e =
      Ensures-result {Q = λ _ t. Reported d token i t} _ (report_feedback-Ensures token i d u) e
