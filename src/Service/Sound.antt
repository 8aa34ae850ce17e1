-- ===== src/Service/Sound.antt =====
-- What holds of the sources and revisions in the database between two transactions.
use mathlib.Core.Path.{subst}
use shadow_relay.Prelude.{
  refl, sym, String, true, ◌≡◌, ◌≢◌, none, some, [], ◌∷◌, arith, eq_iff, eq_refl, Bool,
}
use shadow_relay.Store.Table.{Table, get, put, replace, place, get-put, put_cases}
use shadow_relay.Model.Source.{Source, Revision, RevisionStatus, staged, approved}
use shadow_relay.Model.Database.{Database}

-- The revision `rid` is there, with that status, and belongs to source `k`.
abbrev pub Backed : Table Revision → String → RevisionStatus → String → Type 0
Backed t k status rid =
    (r : Revision) × (get t rid ≡ some r) × (r.status ≡ status) × (r.source_id ≡ k)

-- The source `id` stands under its own key, its active revision `a` was approved, the staged one
-- `s` waits, and it is enabled only with an approved revision.
pub record RefsOk (t : Table Revision) (k id a s : String) (enabled : Bool) : Type 0 where
  pub named : id ≡ k
  pub active : a ≢ "" → Backed t k approved a
  pub staged : s ≢ "" → Backed t k staged s
  pub live : enabled ≡ true → a ≢ ""

abbrev pub SourceOk : Table Revision → String → Source → Type 0
SourceOk t k v = RefsOk t k v.id v.active_revision v.staged_revision v.enabled

-- Revisions stand under their own ids, and none of these is empty.
abbrev pub IsKeyed : Table Revision → Type 0
IsKeyed [] = Unit {0}
IsKeyed ((k, r) ∷ t) = (r.id ≡ k) × (k ≢ "") × IsKeyed t

pub record Sound (ss : Table Source) (t : Table Revision) : Type 0 where
  pub keyed : IsKeyed t
  pub each : (k : String) (v : Source) → get ss k ≡ some v → SourceOk t k v

abbrev pub IsSound : Database → Type 0
IsSound d = Sound d.sources d.revisions

pub IsKeyed-get :
    (t : Table Revision) (k : String) (r : Revision)
    → IsKeyed t
    → get t k ≡ some r
    → (r.id ≡ k) × (k ≢ "")
unfolding get
IsKeyed-get [] k r h e = cc
IsKeyed-get ((j, q) ∷ t) k r h e = ground (arith, IsKeyed-get t k r h.2, eq_iff j k)

-- A revision that was read is found again under its own id.
pub get_own :
    (t : Table Revision) (k : String) (r : Revision)
    → IsKeyed t
    → get t k ≡ some r
    → get t r.id ≡ some r
get_own t k r h e = subst (λ x. get t x ≡ some r) (sym (IsKeyed-get t k r h e).0) e

pub IsKeyed-put :
    (t : Table Revision) (k : String) (r : Revision)
    → IsKeyed t
    → r.id ≡ k
    → k ≢ ""
    → IsKeyed (put t k r)
unfolding put replace place
IsKeyed-put t k r h e n = ground (arith, replaced t h, placed t h)
  where
    replaced : (t : Table Revision) → IsKeyed t → IsKeyed (replace t k r)
    replaced [] h = tt
    replaced ((j, q) ∷ t) h = ground (arith, replaced t h.2)

    placed : (t : Table Revision) → IsKeyed t → IsKeyed (place t k r)
    placed [] h = (e, n, tt)
    placed ((j, q) ∷ t) h = ground (arith, placed t h.2)

-- A write to a revision leaves what backs a source, unless it is that very revision.
pub Backed-put :
    (t : Table Revision) (k : String) (s : RevisionStatus) (rid j : String) (q : Revision)
    → j ≢ rid
    → Backed t k s rid
    → Backed (put t j q) k s rid
Backed-put t k s rid j q ne (r, e, st, own) =
    (r, ground (arith, get-put t j rid q, eq_iff j rid), st, own)

pub Backed-here :
    (t : Table Revision) (k : String) (s : RevisionStatus) (j : String) (q : Revision)
    → q.status ≡ s
    → q.source_id ≡ k
    → Backed (put t j q) k s j
Backed-here t k s j q st own = (q, rw get-put (rw eq_refl), st, own)

-- Two sources share no revision.
Backed-ne :
    (t : Table Revision) (k k' : String) (s : RevisionStatus) (rid j : String) (r : Revision)
    → get t j ≡ some r
    → r.source_id ≡ k'
    → k' ≢ k
    → Backed t k s rid
    → j ≢ rid
Backed-ne t k k' s rid j r e own ne (q, f, st, mine) same = ne (ground arith)

-- A revision of one status is not one of another.
pub Backed-differ :
    (t : Table Revision) (k : String) (s : RevisionStatus) (rid j : String) (r : Revision)
    → get t j ≡ some r
    → r.status ≢ s
    → Backed t k s rid
    → j ≢ rid
Backed-differ t k s rid j r e differs (q, f, st, mine) same = differs (ground arith)

pub Backed-fresh :
    (t : Table Revision) (k : String) (s : RevisionStatus) (rid j : String)
    → get t j ≡ none
    → Backed t k s rid
    → j ≢ rid
Backed-fresh t k s rid j e (q, f, st, mine) same = ground arith

module _ (t : Table Revision) (j : String) (q : Revision) where
  -- What a write of revision `j` does to a source that it does not back.
  pub SourceOk-put :
      (k : String) (v : Source)
      → ((s : RevisionStatus) (rid : String) → Backed t k s rid → j ≢ rid)
      → SourceOk t k v
      → SourceOk (put t j q) k v
  SourceOk-put k v apart h = record {
    named = h.named;
    active = λ n.
        let b = h.active n in
        Backed-put t k approved v.active_revision j q (apart approved v.active_revision b) b;
    staged = λ n.
        let b = h.staged n in
        Backed-put t k staged v.staged_revision j q (apart staged v.staged_revision b) b;
    live = h.live;
  }

-- What becomes of a source that gets a new revision of its own: served at once, or kept to wait.
module _ {k id a s : String} {enabled : Bool} (t : Table Revision) (j : String) (q : Revision)
    (h : RefsOk t k id a s enabled) where
  pub RefsOk-promote :
      j ≢ "" → q.status ≡ approved → q.source_id ≡ k → RefsOk (put t j q) k id j "" enabled
  RefsOk-promote ne st own = record {
    named = h.named;
    active = λ _. Backed-here t k approved j q st own;
    staged = λ e. absurd (e refl);
    live = λ _. ne;
  }

  pub RefsOk-stage :
      get t j ≡ none → q.status ≡ staged → q.source_id ≡ k → RefsOk (put t j q) k id a j enabled
  RefsOk-stage fresh st own = record {
    named = h.named;
    active = λ e.
        let b = h.active e in
        Backed-put t k approved a j q (Backed-fresh t k approved a j fresh b) b;
    staged = λ _. Backed-here t k staged j q st own;
    live = h.live;
  }

-- A source and one of its own revisions change together.
pub Sound-change :
    (ss : Table Source) (t : Table Revision) (k : String) (v : Source) (j : String) (r q : Revision)
    → Sound ss t
    → get t j ≡ some r
    → r.source_id ≡ k
    → q.id ≡ j
    → SourceOk (put t j q) k v
    → Sound (put ss k v) (put t j q)
Sound-change ss t k v j r q h e own qid mine = record {
  keyed = IsKeyed-put t j q h.keyed qid (IsKeyed-get t j r h.keyed e).1;
  each = put_cases (SourceOk (put t j q)) ss k v mine λ k' u ne f.
      SourceOk-put t j q k' u (λ s rid b. Backed-ne t k' k s rid j r e own ne b) (h.each k' u f);
}

-- A new revision comes with a new state of its source.
pub Sound-add :
    (ss : Table Source) (t : Table Revision) (k : String) (v : Source) (j : String) (q : Revision)
    → Sound ss t
    → get t j ≡ none
    → j ≢ ""
    → q.id ≡ j
    → SourceOk (put t j q) k v
    → Sound (put ss k v) (put t j q)
Sound-add ss t k v j q h e ne qid mine = record {
  keyed = IsKeyed-put t j q h.keyed qid ne;
  each = put_cases (SourceOk (put t j q)) ss k v mine λ k' u ne f.
      SourceOk-put t j q k' u (λ s rid b. Backed-fresh t k' s rid j e b) (h.each k' u f);
}

-- Only the source changes.
pub Sound-put :
    (ss : Table Source) (t : Table Revision) (k : String) (v : Source)
    → Sound ss t
    → SourceOk t k v
    → Sound (put ss k v) t
Sound-put ss t k v h mine = record {
  keyed = h.keyed;
  each = put_cases (SourceOk t) ss k v mine λ k' u ne f. h.each k' u f;
}
