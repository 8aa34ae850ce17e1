-- ===== src/Service/Play/Direct.antt =====
-- Where a client is sent is a place that it may go to, and it gets there without a secret in the
-- redirect.
use shadow_relay.Prelude.{
  String, true, false, Option, none, some, [], ◌∷◌, ◌≡◌, ◌≢◌, ◌⊎◌, inl, inr, refl, arith, eq_iff,
  Option-cases, contains,
}
use shadow_relay.Store.Table.{get}
use shadow_relay.Store.Op.{ok}
use shadow_relay.Store.Op.Ensures.{
  Ensures, Ensures-ok, Ensures-err, Ensures-when, Ensures-guard, Ensures-bind, Ensures-result,
  Ensures-weaken,
}
use shadow_relay.Store.Rows.Rules.{Ensures-get_row}
use shadow_relay.Security.Headers.{Headers}
use shadow_relay.Model.Source.{Source, Revision, Item}
use shadow_relay.Model.Database.{Database, sources, revisions}
use shadow_relay.Service.Intake.Reads.{Ensures-refuse}
use shadow_relay.Service.Play.{
  PlayWorld, PlayInput, Resource, is_none, find_play_item, is_play_target, play_policy, headers_of,
  resolve_compiled_item, resolve_tvbox_play, parse_resolve_body, ask_upstream,
  resolve_without_template, resolve_direct_link, expand_resolve_template, base_resource,
  resolve_protocol, resolve_play,
}
use mathlib.Core.Bool.{false≢true}

is_none_eq : (h : Headers) → is_none h ≡ true → h ≡ []
is_none_eq [] e = refl
is_none_eq (x ∷ h) e = ground arith

module _ {A : Type 0} (world : PlayWorld A) where
  -- A URL that was checked against the policy of the source, or none; no headers where the client
  -- may go directly; and no URL where it has to use a runtime.
  pub record Sent (src : Source) (r : Resource) : Type 0 where
    pub target : (r.url ≡ "") ⊎ (is_play_target world r.url (play_policy world src) ≡ true)
    pub bare : r.allow_direct ≡ true → r.headers ≡ []
    pub runtime : r.must_use_runtime ≡ true → r.url ≡ ""

  abbrev SentFrom : Database → Source → Resource → Database → Type 0
  SentFrom d src r t = (t ≡ d) × Sent src r

  base_resource-Sent : (src : Source) → Sent src (base_resource world src)
  base_resource-Sent src = record { target = inl refl; bare = λ e. refl; runtime = λ e. refl }

  resolve_compiled_item-Sent :
      (src : Source) (rev : Revision) (i : PlayInput) (out : Resource) (d : Database)
      → Ensures (SentFrom d src) (resolve_compiled_item world src rev i out d)
  unfolding resolve_compiled_item
  resolve_compiled_item-Sent src rev i out d =
      elim (Option-cases (find_play_item world.urls.to_lower rev.normalized.items i)) [
        | inl e ↦ rw (e, resolve_compiled_item) (Ensures-err _ _)
        | inr (x, e) ↦
            rw (e, resolve_compiled_item)
              (Ensures-guard _ _ _ d λ target. Ensures-ok _ _ (
                refl,
                record {
                  target = inr target;
                  bare = λ direct. is_none_eq _ direct;
                  runtime = λ f. absurd (false≢true f);
                },
              ))
      ]

  resolve_tvbox_play-Sent :
      (src : Source) (rev : Revision) (i : PlayInput) (d : Database)
      → Ensures (SentFrom d src) (resolve_tvbox_play world src rev i (base_resource world src) d)
  unfolding resolve_tvbox_play
  resolve_tvbox_play-Sent src rev i d =
      elim (Option-cases (find_play_item world.urls.to_lower rev.normalized.items i)) [
        | inl e ↦ rw (e, resolve_tvbox_play) (Ensures-err _ _)
        | inr (x, e) ↦
            rw (e, resolve_tvbox_play)
              (Ensures-when _ _ _ d
                (λ _. Ensures-ok _ _ (
                  refl,
                  record {
                    target = inl refl;
                    bare = λ f. absurd (false≢true f);
                    runtime = λ f. refl;
                  },
                ))
                λ _. resolve_compiled_item-Sent src rev i (base_resource world src) d)
      ]

  parse_resolve_body-reads :
      (body content_type : String) (d : Database)
      → Ensures (λ _ t. t ≡ d) (parse_resolve_body world body content_type d)
  unfolding parse_resolve_body
  parse_resolve_body-reads body content_type d = Ensures-guard _ _ _ d λ _.
      Ensures-when _ _ _ d
        (λ _. elim (Option-cases (world.read_answer body)) [
          | inl e ↦ rw e (Ensures-err _ _)
          | inr (a, e) ↦ rw e (Ensures-guard _ _ _ d λ _. Ensures-ok _ _ refl)
        ])
        λ _. Ensures-guard _ _ _ d λ _. Ensures-ok _ _ refl

  ask_upstream-Sent :
      (src : Source) (id title url : String) (out : Resource) (d : Database)
      → Ensures (SentFrom d src) (ask_upstream world src id title url out d)
  unfolding ask_upstream
  ask_upstream-Sent src id title url out d = Ensures-guard _ _ _ d λ _.
      elim (Option-cases (world.fetch url (play_policy world src) (headers_of world src.id d))) [
        | inl e ↦ rw e (Ensures-err _ _)
        | inr ((body, content_type), e) ↦ rw e (
            Ensures-bind _ _ d (parse_resolve_body-reads body content_type d) λ x t same. rw same (
              Ensures-guard _ _ _ d λ target. Ensures-refuse _ _ d λ _. Ensures-ok _ _ (
                refl,
                record {
                  target = inr target;
                  bare = λ direct. is_none_eq _ direct;
                  runtime = λ f. absurd (false≢true f);
                },
              )))
      ]

  resolve_without_template-Sent :
      (src : Source) (rev : Revision) (i : PlayInput) (x : Option Item) (out : Resource)
      → (d : Database) → Ensures (SentFrom d src) (resolve_without_template world src rev i x out d)
  unfolding resolve_without_template
  resolve_without_template-Sent src rev i none out d = Ensures-err _ _
  resolve_without_template-Sent src rev i (some x) out d =
      Ensures-when _ _ _ d (λ _. resolve_compiled_item-Sent src rev _ out d)
        λ _.
          Ensures-when _ _ _ d (λ _. resolve_compiled_item-Sent src rev i out d)
            λ _. Ensures-err _ _

  expand-reads :
      (template id query hint : String) (d : Database)
      → Ensures (λ _ t. t ≡ d) (expand_resolve_template world template id query hint d)
  unfolding expand_resolve_template
  expand-reads template id query hint d = Ensures-guard _ _ _ d λ _. Ensures-ok _ _ refl

  resolve_direct_link-Sent :
      (src : Source) (rev : Revision) (i : PlayInput) (out : Resource) (d : Database)
      → Ensures (SentFrom d src) (resolve_direct_link world src rev i out d)
  unfolding resolve_direct_link
  resolve_direct_link-Sent src rev i out d =
      Ensures-when _ _ _ d (λ _. resolve_without_template-Sent src rev i _ out d)
        λ _.
          Ensures-bind _ _ d (expand-reads _ _ _ _ d)
            λ url t same. rw same (ask_upstream-Sent src _ _ url out d)

  resolve_protocol-Sent :
      (src : Source) (rev : Revision) (i : PlayInput) (d : Database)
      → Ensures (SentFrom d src) (resolve_protocol world src rev i d)
  unfolding resolve_protocol
  resolve_protocol-Sent src rev i d =
      let out = base_resource world src in
      Ensures-when _ _ _ d (λ _. resolve_compiled_item-Sent src rev i out d)
        λ _.
          Ensures-when _ _ _ d
            (λ _. Ensures-ok _ _ (
              refl,
              record { target = inl refl; bare = λ f. absurd (false≢true f); runtime = λ f. refl },
            ))
            λ _.
              Ensures-when _ _ _ d (λ _. resolve_direct_link-Sent src rev i out d)
                λ _.
                  Ensures-when _ _ _ d (λ _. resolve_tvbox_play-Sent src rev i d)
                    λ _. Ensures-err _ _

  -- What a successful resolution says of the database and the source.
  pub record Played (id : String) (d : Database) (r : Resource) (t : Database) : Type 0 where
    pub unchanged : t ≡ d
    pub source : Source
    pub row : get d.sources id ≡ some source
    pub live : (source.enabled ≡ true) × (source.active_revision ≢ "")
    pub direct_client : contains ("emby" ∷ "jellyfin" ∷ []) source.protocol ≡ false
    pub sent : Sent source r

  resolve_play-Ensures :
      (id : String) (i : PlayInput) (d : Database)
      → Ensures (Played id d) (resolve_play world id i d)
  unfolding resolve_play
  resolve_play-Ensures id i d = Ensures-get_row sources _ _ d λ src row.
      Ensures-guard _ _ _ d λ live. Ensures-guard _ _ _ d λ other.
        Ensures-get_row revisions _ _ d λ rev _.
          Ensures-weaken (resolve_protocol-Sent src rev i d) λ r t (same, sent). record {
            unchanged = same;
            source = src;
            row = row;
            live = (ground (arith, live), ground (arith, live, eq_iff src.active_revision ""));
            direct_client = ground (arith, other);
            sent = sent;
          }

  -- where resolving an item for playback succeeds, the database is as before, the source is
  -- enabled, has an active revision and is no Emby or Jellyfin; the URL that the client is sent
  -- to, where there is one, was checked against the outbound policy of the source; the client may
  -- go there directly only where no headers are asked for; and where it has to use a runtime it
  -- gets no URL.
  pub resolve_play-Played :
      (id : String) (i : PlayInput) (d t : Database) (r : Resource)
      → resolve_play world id i d ≡ ok r t
      → Played id d r t
  resolve_play-Played id i d t r e = Ensures-result _ (resolve_play-Ensures id i d) e
