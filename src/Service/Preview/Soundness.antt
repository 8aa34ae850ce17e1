-- ===== src/Service/Preview/Soundness.antt =====
-- The whole of an import keeps the sources and their revisions in order.
use mathlib.Core.Path.{subst}
use shadow_relay.Prelude.{◌≡◌, refl, sym, none, some, Option, String, inl, inr, Option-cases}
use shadow_relay.Store.Op.{state, write, Op, ◌>>=◌}
use shadow_relay.Store.Op.Always.{Always-bind, Always-when, Always-guard}
use shadow_relay.Security.{Urls}
use shadow_relay.Adapter.Difference.{Reader}
use shadow_relay.Model.Source.{Normalized}
use shadow_relay.Model.Database.{Database}
use shadow_relay.Service.Connectors.{connector}
use shadow_relay.Service.Draws.{Draws}
use shadow_relay.Service.Sound.{IsSound}
use shadow_relay.Service.Lifecycle.{source_action_tx}
use shadow_relay.Service.Lifecycle.Soundness.{source_action_tx-IsSound}
use shadow_relay.Service.Intake.{
  Site, SourceInput, defaults, import_tx, check_input, auto_enable_import, refuse, filled,
}
use shadow_relay.Service.Intake.Live.{import_source}
use shadow_relay.Service.Intake.Soundness.{import_tx-IsSound}
use shadow_relay.Service.Preview.{World, require, document_body, parsed, preview, import}

import_source-IsSound :
    (site : Site) (rd : Reader) (w w' : Draws) (i : SourceInput) (hash : _) (n : Normalized)
    → (d : Database) → IsSound d
    → IsSound (state (import_source site rd w w' i hash n d))
unfolding import_source
import_source-IsSound site rd w w' i hash n d h =
    Always-bind IsSound (write (import_tx site rd w i hash n)) _ d
      (import_tx-IsSound site rd w i hash n d h)
      λ v t _ s.
        Always-when IsSound (auto_enable_import v) _ _ t
          (λ _.
            Always-bind IsSound
              (write (source_action_tx w' v.id "approve-enable" v.staged_revision)) _ t
              (source_action_tx-IsSound w' v.id "approve-enable" v.staged_revision t s)
              λ _ _ _ u. u)
          λ _. s

-- Steps that leave the database as it is.
module _ {S : Type 0} where
  refuse-quiet : (m : Option String) (s : S) → state (refuse m s) ≡ s
  refuse-quiet none s = refl
  refuse-quiet (some m) s = refl

  pub require-quiet : {A : Type 0} (o : Option A) (s : S) → state (require {S = S} o s) ≡ s
  unfolding require
  require-quiet none s = refl
  require-quiet (some a) s = refl

  -- Two quiet steps are quiet.
  quiet-bind :
      {A B : Type 0} (m : Op S A) (f : A → Op S B) (s : S)
      → state (m s) ≡ s
      → ((a : A) → state (f a s) ≡ s)
      → state ((m >>= f) s) ≡ s
  quiet-bind m f s h k =
      Always-bind (λ t. t ≡ s) m f s h λ a t _ e. subst (λ x. state (f a x) ≡ s) (sym e) (k a)

  check_input-quiet : (urls : Urls) (i : SourceInput) (s : S) → state (check_input urls i s) ≡ s
  unfolding check_input
  check_input-quiet urls i s =
      let P : S → Type 0 = λ t. t ≡ s in
      Always-guard P _ _ _ s refl λ _. Always-guard P _ _ _ s refl λ _.
        Always-guard P _ _ _ s refl λ _. Always-guard P _ _ _ s refl λ _.
          Always-guard P _ _ _ s refl λ _.
            Always-guard P _ _ _ s refl λ _.
              Always-guard P _ _ _ s refl λ _. Always-guard P _ _ _ s refl λ _. refuse-quiet _ s

  pub defaults-quiet : (urls : Urls) (i : SourceInput) (s : S) → state (defaults urls i s) ≡ s
  unfolding defaults
  defaults-quiet urls i s = quiet-bind _ _ s (check_input-quiet urls (filled i) s) λ _. refl

  document_body-quiet :
      (world : World) (i : SourceInput) (s : S) → state (document_body world i s) ≡ s
  unfolding document_body
  document_body-quiet world i s =
      Always-when (λ t. t ≡ s) _ _ _ s (λ _. refl)
        λ _. Always-guard (λ t. t ≡ s) _ _ _ s refl λ _. require-quiet _ s

  parsed-quiet : (world : World) (i : SourceInput) (s : S) → state (parsed world i s) ≡ s
  unfolding parsed
  parsed-quiet world i s =
      quiet-bind _ _ s (document_body-quiet world i s)
        λ body. quiet-bind _ _ s (require-quiet (world.parse body i.protocol i.url) s) λ _. refl

  pub preview-quiet :
      (world : World) (site : Site) (i : SourceInput) (s : S) → state (preview world site i s) ≡ s
  unfolding preview
  preview-quiet world site request s = quiet-bind _ _ s (defaults-quiet site.urls request s) λ i.
      quiet-bind _ _ s (refuse-quiet _ s) λ _. elim (Option-cases (connector i.protocol)) [
        | inl e ↦ rw e (parsed-quiet world i s)
        | inr (c, e) ↦ rw e (Always-guard (λ t. t ≡ s) _ _ _ s refl λ _. refl)
      ]

-- an import, with its network, its parser and both of its transactions, keeps the database sound
-- in the sense of source_action_tx-IsSound, whether it succeeds or fails at any point.
pub import-IsSound :
    (site : Site) (world : World) (rd : Reader) (w w' : Draws) (request : SourceInput)
    → (d : Database) → IsSound d
    → IsSound (state (import site world rd w w' request d))
unfolding import
import-IsSound site world rd w w' request d h =
    Always-bind IsSound _ _ d (rw (defaults-quiet site.urls request d) h) λ i d1 _ h1.
      Always-bind IsSound _ _ d1 (rw (preview-quiet world site i d1) h1) λ x d2 _ h2.
        Always-guard IsSound _ _ _ d2 h2 λ _.
          Always-bind IsSound (require (world.snapshot x.1)) _ d2
            (rw (require-quiet (world.snapshot x.1) d2) h2)
            λ hash d3 _ h3. import_source-IsSound site rd w w' i hash x.0 d3 h3
