-- ===== src/Service/Bindings/Access.antt =====
-- Who gets an artifact: what a resolved request proves, and that a revoked or rotated token is dead.
use mathlib.Core.Path.{subst}
use mathlib.Core.Bool.{false≢true}
use shadow_relay.Prelude.{
  String, true, false, ◌≡◌, ◌≢◌, refl, sym, ◌∙◌, inl, inr, none, some, [], ◌∷◌, arith, ◌==◌, eq_iff,
  Bool-cases, Option-cases, suc,
}
use shadow_relay.Store.Table.{
  Table, get, put, put_cases, IsDistinct, put-IsDistinct, get_functional,
}
use shadow_relay.Store.Op.{not_found, ok, err, guard, ◌>>=◌}
use shadow_relay.Store.Op.Ensures.{
  Ensures, Ensures-ok, Ensures-when, Ensures-guard, Ensures-bind, Ensures-result, write-eq-ok,
}
use shadow_relay.Store.Rows.{get_row}
use shadow_relay.Store.Rows.Rules.{
  Ensures-get_row, Ensures-put_row, Ensures-insert_row, Ensures_put_row_last, Ensures_discard_row,
}
use shadow_relay.Model.Publication.{Binding}
use shadow_relay.Model.Database.{Database, bindings, audits, secrets}
use shadow_relay.Service.Draws.{Draws, audit}
use shadow_relay.Service.Platform.{Platform}
use shadow_relay.Service.Bindings.{
  find_by_hash, find_binding, resolve, binding_action, binding_action_tx, revoke, rotate,
}

-- A binding found by its hash is the row of its id.
pub find_by_hash-get :
    (t : Table Binding) (h k : String)
    → IsDistinct t
    → find_by_hash t h ≡ some k
    → (b : Binding) × (get t k ≡ some b) × (b.hash ≡ h)
unfolding find_by_hash get
find_by_hash-get [] h k u e = cc
find_by_hash-get ((j, c) ∷ t) h k u e = elim (Bool-cases (c.hash == h)) [
  | inl y ↦ (c, ground (arith, eq_iff j k), (eq_iff c.hash h).0 y)
  | inr n ↦
      let (b, found, hash) = find_by_hash-get t h k u.1 (ground arith) in
      (b, ground (arith, eq_iff j k), hash)
]

-- A token is dead where every binding with its hash has been revoked.
abbrev pub IsDead : Platform → Database → String → Type 0
IsDead pf d token =
    (k : String) (b : Binding)
    → get d.bindings k ≡ some b
    → b.hash ≡ pf.hash token
    → b.revoked ≡ true

module _ (pf : Platform) (w : Draws) (token publication path : String) (d : Database) where
  dead_at :
      (k : String) (b : Binding)
      → find_by_hash d.bindings (pf.hash token) ≡ some k
      → get d.bindings k ≡ some b
      → b.revoked ≡ true
      → resolve pf w token publication path d ≡ err not_found d
  unfolding resolve ◌>>=◌ guard find_binding get_row
  dead_at k b e f r = ground arith

  dead_none :
      find_by_hash d.bindings (pf.hash token) ≡ none
      → resolve pf w token publication path d ≡ err not_found d
  unfolding resolve ◌>>=◌ guard find_binding
  dead_none e = ground arith

  -- A dead token gets the answer of an unknown one, for every path and publication.
  pub resolve_dead :
      IsDistinct d.bindings
      → IsDead pf d token
      → resolve pf w token publication path d ≡ err not_found d
  resolve_dead u dead = elim (Option-cases (find_by_hash d.bindings (pf.hash token))) [
    | inl e ↦ dead_none e
    | inr (k, e) ↦
        let (b, f, h) = find_by_hash-get d.bindings (pf.hash token) k u e in
        dead_at k b e f (dead k b f h)
  ]

-- No two bindings have one hash: the unique index on `token_hash`.
abbrev pub IsHashUnique : Table Binding → Type 0
IsHashUnique t =
    (j k : String) (b c : Binding) → get t j ≡ some b → get t k ≡ some c → b.hash ≡ c.hash → j ≡ k

module _ (pf : Platform) (w : Draws) (id : String) (d : Database) (b : Binding) where
  abbrev Unchanged : Binding → Binding → Database → Type 0
  Unchanged x c t = (c ≡ x) × (t.bindings ≡ d.bindings)

  revoked :
      Ensures
        (λ c t. (c ≡ record b { revoked = true }) × (t.bindings ≡ d.bindings))
        (revoke pf w b d)
  unfolding revoke
  revoked =
      Ensures-bind {P = λ _ t. t.bindings ≡ d.bindings} _ _ d
        (Ensures-when _ _ _ d (λ _. Ensures_discard_row secrets _ d refl)
          (λ _. Ensures-ok _ _ refl))
        λ _ t e. Ensures-ok _ _ (refl, e)

  abbrev renewed : Binding
  renewed = record b { hash = pf.hash w.token; generation = suc b.generation; revoked = false }

  rotated : Ensures (λ c t. (c ≡ renewed) × (t.bindings ≡ d.bindings)) (rotate pf w b d)
  unfolding rotate
  rotated = Ensures-guard _ _ _ d λ _.
      Ensures-bind {P = λ _ t. t.bindings ≡ d.bindings} _ _ d
        (Ensures-when _ _ _ d (λ _. Ensures_put_row_last secrets _ _ d λ _. refl)
          (λ _. Ensures-ok _ _ refl))
        λ _ t e. Ensures-ok _ _ (refl, e)

  -- Both actions write the changed row back under its id, and touch no other binding.
  revoke-ends :
      {r : String} {t : Database}
      → get d.bindings id ≡ some b
      → binding_action pf w id "revoke" d ≡ ok r t
      → t.bindings ≡ put d.bindings id (record b { revoked = true })
  unfolding binding_action binding_action_tx audit
  revoke-ends here e =
      Ensures-result {Q = λ _ t. t.bindings ≡ put d.bindings id (record b { revoked = true })} _
        (Ensures-get_row bindings _ _ d λ b' f.
          Ensures-bind {P = λ c t. (c ≡ record b { revoked = true }) × (t.bindings ≡ d.bindings)} _
            _ d
            (Ensures-when _ _ _ d
              (λ _.
                subst (λ x. Ensures (Unchanged (record b { revoked = true })) (revoke pf w x d))
                  (get_functional d.bindings id b b' here f) revoked)
              (λ n. absurd (false≢true (sym n))))
            λ c t (changed, kept).
              Ensures-put_row bindings _ _ _ t
                λ _. Ensures-insert_row audits _ _ _ _ λ _ _. Ensures-ok _ _ (rw (changed, kept)))
        (write-eq-ok _ d e)

  rotate-ends :
      {r : String} {t : Database}
      → get d.bindings id ≡ some b
      → binding_action pf w id "rotate" d ≡ ok r t
      → t.bindings ≡ put d.bindings id renewed
  unfolding binding_action binding_action_tx audit
  rotate-ends here e =
      Ensures-result {Q = λ _ t. t.bindings ≡ put d.bindings id renewed} _
        (Ensures-get_row bindings _ _ d λ b' f.
          Ensures-bind {P = λ c t. (c ≡ renewed) × (t.bindings ≡ d.bindings)} _ _ d
            (Ensures-when _ _ _ d (λ n. absurd (false≢true n))
              (λ _.
                Ensures-when _ _ _ d
                  (λ _.
                    subst (λ x. Ensures (Unchanged renewed) (rotate pf w x d))
                      (get_functional d.bindings id b b' here f) rotated)
                  (λ n. absurd (false≢true (sym n)))))
            λ c t (changed, kept).
              Ensures-put_row bindings _ _ _ t
                λ _. Ensures-insert_row audits _ _ _ _ λ _ _. Ensures-ok _ _ (rw (changed, kept)))
        (write-eq-ok _ d e)

-- where the bindings have distinct ids and distinct hashes, after a revocation of a binding
-- succeeds each request with a token of that binding, for any path and any publication, is
-- answered as an unknown one and changes nothing.
pub revoked_token_dead :
    (pf : Platform) (w w' : Draws) (id r token publication path : String) (d t : Database)
    (b : Binding)
    → IsDistinct d.bindings
    → IsHashUnique d.bindings
    → get d.bindings id ≡ some b
    → b.hash ≡ pf.hash token
    → binding_action pf w id "revoke" d ≡ ok r t
    → resolve pf w' token publication path t ≡ err not_found t
revoked_token_dead pf w w' id r token publication path d t b distinct unique here hash e =
    let changed = revoke-ends pf w id d b here e in
    resolve_dead pf w' token publication path t
      (rw changed (put-IsDistinct d.bindings id _ distinct))
      λ k c f h.
        put_cases (λ _ x. x.hash ≡ pf.hash token → x.revoked ≡ true) d.bindings id
          (record b { revoked = true }) (λ _. refl)
          (λ j u ne g same. absurd (ne (unique id j b u here g (hash ∙ sym same)))) k c
          (rw (← changed) f) h

-- where the bindings have distinct ids and distinct hashes, after a rotation of a binding
-- succeeds each request with its old token is answered as an unknown one and changes nothing, if
-- the hash of the new token is another one.
pub rotated_token_dead :
    (pf : Platform) (w w' : Draws) (id r token publication path : String) (d t : Database)
    (b : Binding)
    → IsDistinct d.bindings
    → IsHashUnique d.bindings
    → get d.bindings id ≡ some b
    → b.hash ≡ pf.hash token
    → pf.hash w.token ≢ pf.hash token
    → binding_action pf w id "rotate" d ≡ ok r t
    → resolve pf w' token publication path t ≡ err not_found t
rotated_token_dead pf w w' id r token publication path d t b distinct unique here hash fresh e =
    let changed = rotate-ends pf w id d b here e in
    resolve_dead pf w' token publication path t
      (rw changed (put-IsDistinct d.bindings id _ distinct))
      λ k c f h.
        put_cases (λ _ x. x.hash ≡ pf.hash token → x.revoked ≡ true) d.bindings id
          (record b { hash = pf.hash w.token; generation = suc b.generation; revoked = false })
          (λ same. absurd (fresh same))
          (λ j u ne g same. absurd (ne (unique id j b u here g (hash ∙ sym same)))) k c
          (rw (← changed) f) h
