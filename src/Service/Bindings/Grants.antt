-- ===== src/Service/Bindings/Grants.antt =====
-- What a request that is answered has proved: the converse side of Access.
use shadow_relay.Prelude.{
  String, true, false, not, ◌&&◌, ◌≡◌, refl, inl, inr, some, arith, ap, ◌∙◌, ◌==◌, eq_iff,
  Option-cases, ◌⊎◌,
}
use shadow_relay.Store.Table.{get, IsDistinct, get_functional}
use shadow_relay.Store.Op.{ok, ◌>>=◌}
use shadow_relay.Store.Op.Ensures.{
  Ensures, Ensures-ok, Ensures-err, Ensures-when, Ensures-guard, Ensures-bind, Ensures-result,
  Ensures-weaken,
}
use shadow_relay.Store.Rows.Rules.{Ensures-get_row}
use shadow_relay.Model.Publication.{SourceSet, Artifact, Publication, Binding}
use shadow_relay.Model.Database.{Database, source_sets, publications, bindings}
use shadow_relay.Service.Draws.{Draws}
use shadow_relay.Service.Platform.{Platform}
use shadow_relay.Service.Bindings.{
  find_by_hash, find_binding, find_artifact, open_artifact, is_path_allowed, is_future,
  wanted_publication, resolve,
}
use shadow_relay.Service.Bindings.Access.{find_by_hash-get}

-- The publication that a request is served from: the named one, or the current one of the set.
abbrev pub IsWanted : Database → String → Binding → String → Type 0
IsWanted d publication b id =
    (publication ≡ id)
    ⊎ ((publication ≡ "")
        × ((s : SourceSet) × (get d.source_sets b.set_id ≡ some s) × (s.current_publication ≡ id)))

-- The binding, the publication and the artifact behind an answer.
pub record Grant (pf : Platform) (w : Draws) (d : Database) (token publication path : String)
    (a : Artifact) : Type 0 where
  pub key : String
  pub binding : Binding
  pub wanted : String
  pub source : Publication
  pub binding_row : get d.bindings key ≡ some binding
  pub token_hash : binding.hash ≡ pf.hash token
  pub live : binding.revoked ≡ false
  pub unexpired : is_future pf w binding.expires_at ≡ true
  pub allowed : is_path_allowed binding.formats path ≡ true
  pub chosen : IsWanted d publication binding wanted
  pub source_row : get d.publications wanted ≡ some source
  pub same_set : source.set_id ≡ binding.set_id
  pub artifact : find_artifact source.artifacts path ≡ some a

module _ (pf : Platform) (w : Draws) (token publication path : String) (d : Database) where
  pub find_binding_lem :
      Ensures
        (λ k t. (t ≡ d) × (find_by_hash d.bindings (pf.hash token) ≡ some k))
        (find_binding (pf.hash token) d)
  unfolding find_binding
  find_binding_lem = elim (Option-cases (find_by_hash d.bindings (pf.hash token))) [
    | inl e ↦ rw (e, find_binding) (Ensures-err _ _)
    | inr (k, e) ↦ rw (e, find_binding) (Ensures-ok k d (refl, refl))
  ]

  open_artifact_lem :
      (p : Publication)
      → Ensures
          (λ a t. (t ≡ d) × (find_artifact p.artifacts path ≡ some a))
          (open_artifact p path d)
  unfolding open_artifact
  open_artifact_lem p = elim (Option-cases (find_artifact p.artifacts path)) [
    | inl e ↦ rw (e, open_artifact) (Ensures-err _ _)
    | inr (a, e) ↦ rw (e, open_artifact) (Ensures-ok a d (refl, refl))
  ]

  pub wanted_publication_lem :
      (b : Binding)
      → Ensures
          (λ id t. (t ≡ d) × IsWanted d publication b id)
          (wanted_publication pf w publication b d)
  unfolding wanted_publication ◌>>=◌
  wanted_publication_lem b =
      Ensures-when _ _ _ d
        (λ e.
          Ensures-get_row source_sets _ _ d
            λ s f. Ensures-ok _ _ (refl, inr ((eq_iff publication "").0 e, (s, f, refl))))
        (λ _. Ensures-ok _ _ (refl, inl refl))

-- The answer of `resolve` when the database has not moved since `d`.
abbrev pub Granted :
    Platform → Draws → Database → String → String → String → Artifact → Database → Type 0
Granted pf w d token publication path a t = (t ≡ d) × Grant pf w d token publication path a

pub granted :
    (pf : Platform) (w : Draws) (token publication path : String) (d : Database)
    → IsDistinct d.bindings
    → Ensures (Granted pf w d token publication path) (resolve pf w token publication path d)
unfolding resolve
granted pf w token publication path d u = Ensures-guard _ _ _ d λ _.
    Ensures-bind {P = λ k t. (t ≡ d) × (find_by_hash d.bindings (pf.hash token) ≡ some k)} _ _ d
      (find_binding_lem pf w token publication path d)
      λ k t (e, found). rw e (
        let (b, row, hash) = find_by_hash-get d.bindings (pf.hash token) k u found in
        Ensures-get_row bindings _ _ d λ c f.
          Ensures-guard (is_future pf w c.expires_at && not c.revoked) _ _ d λ live.
            Ensures-guard (is_path_allowed c.formats path) _ _ d λ may.
              Ensures-bind {P = λ id t. (t ≡ d) × IsWanted d publication c id} _ _ d
                (wanted_publication_lem pf w token publication path d c)
                λ id t' (e', chosen). rw e' (
                  Ensures-get_row publications _ _ d λ p g.
                    Ensures-guard (p.set_id == c.set_id) _ _ d λ same.
                      Ensures-weaken (open_artifact_lem pf w token publication path d p)
                        λ a t'' (e'', opened). (
                          e'',
                          record {
                            key = k;
                            binding = c;
                            wanted = id;
                            source = p;
                            binding_row = f;
                            token_hash =
                                ap (λ x. x.hash) (get_functional d.bindings k c b f row) ∙ hash;
                            live = ground arith;
                            unexpired = ground arith;
                            allowed = may;
                            chosen = chosen;
                            source_row = g;
                            same_set = (eq_iff p.set_id c.set_id).0 same;
                            artifact = opened;
                          },
                        )))

-- where no id stands twice among the bindings and a request is answered, the database is
-- unchanged, and there is a binding with the hash of the token that is not revoked, has not
-- expired and allows the path; the artifact is the one under that path in a publication of the
-- set of the binding, which is the publication the request names or the current one of the set.
pub resolve_granted :
    (pf : Platform) (w : Draws) (token publication path : String) (d t : Database) (a : Artifact)
    → IsDistinct d.bindings
    → resolve pf w token publication path d ≡ ok a t
    → (t ≡ d) × Grant pf w d token publication path a
resolve_granted pf w token publication path d t a u e =
    Ensures-result {Q = Granted pf w d token publication path} _
      (granted pf w token publication path d u) e
