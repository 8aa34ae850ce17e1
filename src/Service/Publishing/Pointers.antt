-- ===== src/Service/Publishing/Pointers.antt =====
-- The pointers of the source sets: what publishing and rolling back keep of them.
use mathlib.Core.Path.{subst}
use shadow_relay.Service.Selection.{Selected, sort_members}
use shadow_relay.Service.Publishing.Safety.{CompiledFrom, compile_lem}
use shadow_relay.Prelude.{
  List, Bool, String, ◌≡◌, ◌≢◌, refl, sym, none, some, arith, eq_iff, eq_refl,
}
use shadow_relay.Store.Table.{Table, get, put, get-put, put_cases}
use shadow_relay.Store.Op.{state}
use shadow_relay.Store.Op.Ensures.{
  Ensures, Ensures-ok, Ensures-err, Ensures-when, Ensures-guard, Ensures-bind, Ensures-weaken,
  write-keeps,
}
use shadow_relay.Store.Rows.Rules.{
  Ensures-get_row, Ensures-insert_row, Ensures-put_row, Ensures_get_row_last,
  Ensures_insert_row_last,
}
use shadow_relay.Model.Publication.{Member, SourceSet, Publication}
use shadow_relay.Model.Database.{Database, source_sets, publications, audits}
use shadow_relay.Service.Draws.{Draws, audit}
use shadow_relay.Service.Selection.Gathering.{gather_lem}
use shadow_relay.Service.Publishing.{
  Encoding, withdraw, nothing_to_publish, release_publication, publish_items,
  prepare_publication_tx, prepare_publication, rollback_publication_tx, rollback_publication,
  advance, signature_of,
}

-- The publication `pid` is there, and is one of the set `k`.
abbrev pub Released : Table Publication → String → String → Type 0
Released t k pid = (p : Publication) × (get t pid ≡ some p) × (p.set_id ≡ k)

-- A set under its own key points at publications of its own.
pub record PointsOk (t : Table Publication) (k id current previous : String) : Type 0 where
  pub named : id ≡ k
  pub now : current ≢ "" → Released t k current
  pub before : previous ≢ "" → Released t k previous

abbrev pub SetOk : Table Publication → String → SourceSet → Type 0
SetOk t k s = PointsOk t k s.id s.current_publication s.previous_publication

pub record Pointed (ss : Table SourceSet) (t : Table Publication) : Type 0 where
  pub each : (k : String) (s : SourceSet) → get ss k ≡ some s → SetOk t k s

abbrev pub IsPointed : Database → Type 0
IsPointed d = Pointed d.source_sets d.publications

Released-fresh :
    (t : Table Publication) (k j pid : String) (x : Publication)
    → get t j ≡ none
    → Released t k pid
    → Released (put t j x) k pid
Released-fresh t k j pid x fresh (p, e, s) = (p, ground (arith, get-put t j pid x, eq_iff j pid), s)

Released-put :
    (t : Table Publication) (k j : String) (x : Publication)
    → x.set_id ≡ k
    → Released (put t j x) k j
Released-put t k j x s = (x, ground (arith, get-put t j j x, eq_refl j), s)

-- A new publication breaks no pointer.
Pointed-insert :
    (ss : Table SourceSet) (t : Table Publication) (j : String) (x : Publication)
    → get t j ≡ none
    → Pointed ss t
    → Pointed ss (put t j x)
Pointed-insert ss t j x fresh h = record {
  each = λ k s e.
      let old = h.each k s e in
      record {
        named = old.named;
        now = λ n. Released-fresh t k j _ x fresh (old.now n);
        before = λ n. Released-fresh t k j _ x fresh (old.before n);
      };
}

pub Pointed-put :
    (ss : Table SourceSet) (t : Table Publication) (k : String) (s : SourceSet)
    → Pointed ss t
    → SetOk t k s
    → Pointed (put ss k s) t
Pointed-put ss t k s h o = record { each = put_cases (SetOk t) ss k s o λ j u _ e. h.each j u e }

-- The set moves to a publication of its own, and remembers the one before.
moved :
    (t : Table Publication) (k : String) (s : SourceSet) (id : String)
    → SetOk t k s
    → Released t k id
    → PointsOk t k s.id id s.current_publication
moved t k s id o new = record { named = o.named; now = λ _. new; before = o.now }

-- The set under its own id.
own :
    (ss : Table SourceSet) (t : Table Publication) (k : String) (s : SourceSet)
    → Pointed ss t
    → get ss k ≡ some s
    → SetOk t s.id s
own ss t k s h row = let old = h.each k s row in subst (λ j. SetOk t j s) (sym old.named) old

-- A new publication of the set is inserted, and the set moves to it.
pub Pointed-advance :
    (ss : Table SourceSet) (t : Table Publication) (k j : String) (s u : SourceSet)
    (x : Publication)
    → Pointed ss t
    → get ss k ≡ some s
    → get t j ≡ none
    → x.set_id ≡ s.id
    → u.id ≡ s.id
    → u.current_publication ≡ j
    → u.previous_publication ≡ s.current_publication
    → Pointed (put ss s.id u) (put t j x)
Pointed-advance ss t k j s u x h row fresh same i c b =
    let grown = Pointed-insert ss t j x fresh h in
    Pointed-put ss (put t j x) s.id u grown (
      rw (i, c, b)
        (moved (put t j x) s.id s j (own ss (put t j x) k s grown row)
          (Released-put t s.id j x same)))

module _ (enc : Encoding) (w : Draws) (k : String) (s : SourceSet) (d : Database) (h : IsPointed d)
    (row : get d.source_sets k ≡ some s) where
  withdraw-IsPointed : (ex : Table String) → Ensures (λ p t. IsPointed t) (withdraw enc w s ex d)
  unfolding withdraw audit
  withdraw-IsPointed ex = Ensures-insert_row publications _ _ _ d λ fresh _.
      Ensures-put_row source_sets _ _ _ _ λ _. Ensures-insert_row audits _ _ _ _ λ _ _.
        Ensures-ok _ _
          (Pointed-advance d.source_sets d.publications k _ s _ _ h row fresh refl refl refl refl)

  nothing-IsPointed :
      (ex : Table String) (automatic preview : Bool)
      → Ensures (λ p t. IsPointed t) (nothing_to_publish enc w s ex automatic preview d)
  unfolding nothing_to_publish
  nothing-IsPointed ex automatic preview =
      Ensures-when _ _ _ d (λ _. withdraw-IsPointed ex)
        λ _.
          Ensures-when _ _ _ d (λ _. Ensures_get_row_last publications _ d λ p f. h)
            λ _. Ensures-err _ _

  release-IsPointed :
      (ms : List Member) (items : List Selected) (ex : Table String) (preview : Bool)
      → Ensures (λ p t. IsPointed t) (release_publication enc w k s ms items ex preview d)
  unfolding release_publication audit
  release-IsPointed ms items ex preview =
      Ensures-bind {P = λ p t. (t ≡ d) × CompiledFrom items ex s.id p} _ _ d
        (compile_lem enc w s items ex d)
        λ p t (e, made). rw e (
          Ensures-when preview _ _ d (λ _. Ensures-ok _ _ h)
            λ _. Ensures-insert_row publications _ _ _ d λ fresh _.
              Ensures-put_row source_sets _ _ _ _ λ _. Ensures-insert_row audits _ _ _ _ λ _ _.
                Ensures-ok _ _ (
                  subst
                    (λ j.
                      Pointed
                        (put d.source_sets j
                          (advance enc w p.id (signature_of enc w s ms items ex) s))
                        (put d.publications p.id p))
                    (h.each k s row).named
                    (Pointed-advance d.source_sets d.publications k p.id s _ p h row fresh
                      made.set_id refl refl refl)))

-- publishing, by hand or automatically, and previewing keep every source set under its own id and
-- its current and previous publication, where it has them, publications of that set that are in
-- the database.
pub prepare_publication-IsPointed :
    (enc : Encoding) (w : Draws) (id : String) (automatic preview : Bool)
    → (d : Database) → IsPointed d
    → IsPointed (state (prepare_publication enc w id automatic preview d))
unfolding prepare_publication prepare_publication_tx publish_items
prepare_publication-IsPointed enc w id automatic preview d start =
    write-keeps IsPointed _ d start λ h. Ensures-get_row source_sets _ _ d λ s row.
      Ensures-bind {P = λ r t. t ≡ d} _ _ d
        (Ensures-weaken (gather_lem d (sort_members s.members)) λ r t q. q.0)
        λ r t e. rw e (
          Ensures-when _ _ _ d (λ _. nothing-IsPointed enc w id s d h row _ automatic preview)
            λ _. Ensures-guard _ _ _ d λ _.
              Ensures-when _ _ _ d (λ _. Ensures_get_row_last publications _ d λ p f. h)
                λ _. release-IsPointed enc w id s d h row _ _ _ preview)

-- rolling back to a publication keeps every source set under its own id and its current and
-- previous publication, where it has them, publications of that set that are in the database.
pub rollback_publication-IsPointed :
    (w : Draws) (id : String)
    → (d : Database) → IsPointed d
    → IsPointed (state (rollback_publication w id d))
unfolding rollback_publication rollback_publication_tx audit
rollback_publication-IsPointed w id d start = write-keeps IsPointed _ d start λ h.
    Ensures-get_row publications _ _ d λ p here. Ensures-get_row source_sets _ _ d λ s row.
      Ensures-when _ _ _ d (λ _. Ensures-ok _ _ h)
        λ _. Ensures-put_row source_sets _ _ _ d λ _. Ensures_insert_row_last audits _ _ _ λ _ _.
          let old = h.each p.set_id s row in
          Pointed-put d.source_sets d.publications s.id _ h (
            moved d.publications s.id s id (own d.source_sets d.publications p.set_id s h row)
              (p, here, sym old.named))
