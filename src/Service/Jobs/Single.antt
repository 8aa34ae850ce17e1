-- ===== src/Service/Jobs/Single.antt =====
-- Whatever happens to the queue, at most one job of a kind and a target waits or runs.
use mathlib.Core.Path.{subst}
use shadow_relay.Prelude.{
  ℕ, String, true, not, ◌||◌, ◌≡◌, refl, sym, ap, ◌∙◌, inl, inr, some, [], ◌∷◌, arith, ◌==◌, eq_iff,
  Bool-cases,
}
use shadow_relay.Store.Table.{Table, get, put, put_cases}
use shadow_relay.Model.Queue.{Job, is_active}
use shadow_relay.Model.Database.{Database, is_target_free}
use shadow_relay.Service.Jobs.{expired, is_expired, update_all}

-- Two active jobs of one kind and target are one.
abbrev pub Same : String → Job → String → Job → Type 0
Same j a k b =
    is_active a.status ≡ true
    → is_active b.status ≡ true
    → a.kind ≡ b.kind
    → a.target_id ≡ b.target_id
    → j ≡ k

pub record Single (t : Table Job) : Type 0 where
  pub each :
      (j : String) (a : Job)
      → get t j ≡ some a
      → (k : String) (b : Job) → get t k ≡ some b
      → Same j a k b

abbrev pub IsSingle : Database → Type 0
IsSingle d = Single d.jobs

is_target_free-get :
    (t : Table Job) (id kind target : String)
    → is_target_free t id kind target ≡ true
    → (j : String) (a : Job) → get t j ≡ some a
    → is_active a.status ≡ true
    → a.kind ≡ kind
    → a.target_id ≡ target
    → j ≡ id
unfolding is_target_free get
is_target_free-get [] id kind target f j a e _ _ _ = cc
is_target_free-get ((i, c) ∷ t) id kind target f j a e x y z = elim (Bool-cases (i == j)) [
  | inl here ↦
      ground (arith, eq_iff i j, eq_iff i id, eq_iff c.kind kind, eq_iff c.target_id target)
  | inr there ↦ is_target_free-get t id kind target (ground arith) j a (ground arith) x y z
]

-- A row may be written that is not active, or whose kind and target no other active job has.
pub Single-put :
    (t : Table Job) (id : String) (v : Job)
    → Single t
    → (not (is_active v.status) || is_target_free t id v.kind v.target_id) ≡ true
    → Single (put t id v)
Single-put t id v h free = record {
  each =
      put_cases (λ j a. (k : String) (b : Job) → get (put t id v) k ≡ some b → Same j a k b) t id v
        (put_cases (Same id v) t id v (λ _ _ _ _. refl)
          (λ k b ne e x y p q.
            sym
              (is_target_free-get t id v.kind v.target_id (ground arith) k b e y (sym p) (sym q))))
        (λ j a ne e.
          put_cases (Same j a) t id v
            (λ x y p q. is_target_free-get t id v.kind v.target_id (ground arith) j a e x p q)
            (λ k b ne' e'. h.each j a e k b e'));
}

pub get-update_all :
    (f : Job → Job) (t : Table Job) (k : String) (b : Job)
    → get (update_all f t) k ≡ some b
    → (a : Job) × (get t k ≡ some a) × (b ≡ f a)
unfolding update_all get
get-update_all f [] k b e = cc
get-update_all f ((i, c) ∷ t) k b e = elim (Bool-cases (i == k)) [
  | inl here ↦ (c, ground arith, ground arith)
  | inr there ↦
      let (a, found, same) = get-update_all f t k b (ground arith) in (a, ground arith, same)
]

-- The end of a lease makes no job active, and keeps its kind and target.
expired_lem :
    (clock : ℕ) (j : Job)
    → ((expired clock j).kind ≡ j.kind)
      × ((expired clock j).target_id ≡ j.target_id)
      × (is_active (expired clock j).status ≡ true → is_active j.status ≡ true)
unfolding expired is_expired
expired_lem clock j = (ground arith, ground arith, λ x. ground arith)

pub Single-expire : (clock : ℕ) (t : Table Job) → Single t → Single (update_all (expired clock) t)
Single-expire clock t h = record {
  each = λ j a e k b e' x y p q.
      let (a0, ea, sa) = get-update_all (expired clock) t j a e in
      let (b0, eb, sb) = get-update_all (expired clock) t k b e' in
      let (ka, ta, va) = expired_lem clock a0 in
      let (kb, tb, vb) = expired_lem clock b0 in
      h.each j a0 ea k b0 eb (va (subst (λ z. is_active z.status ≡ true) sa x))
        (vb (subst (λ z. is_active z.status ≡ true) sb y))
        (sym ka ∙ (sym (ap (λ z. z.kind) sa) ∙ (p ∙ (ap (λ z. z.kind) sb ∙ kb))))
        (sym ta ∙ (sym (ap (λ z. z.target_id) sa) ∙ (q ∙ (ap (λ z. z.target_id) sb ∙ tb))));
}
