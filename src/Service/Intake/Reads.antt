-- ===== src/Service/Intake/Reads.antt =====
-- The tests of the intake only read, and saving credentials or an endpoint leaves sources and
-- revisions alone.
use shadow_relay.Prelude.{◌≡◌, refl, ◌∙◌, String, Option, none, some, true, false}
use shadow_relay.Store.Op.{Op, ◌>>=◌, ◌>>◌, guard}
use shadow_relay.Store.Op.Ensures.{
  Ensures, Ensures-ok, Ensures-err, Ensures-when, Ensures-guard, Ensures-bind, Ensures-weaken,
}
use shadow_relay.Store.Rows.Rules.{Ensures-get_row, Ensures_put_row_last}
use shadow_relay.Security.Headers.{Headers}
use shadow_relay.Model.Source.{Source}
use shadow_relay.Model.Database.{Database, runtimes, secrets, endpoints}
use shadow_relay.Service.Draws.{Draws}
use shadow_relay.Service.Intake.{
  Site, refuse, check_runtime, validate_runtime, save_secret, put_endpoint,
}

abbrev pub Reads : {A : Type 0} → Database → A → Database → Type 0
Reads d _ t = t ≡ d

-- Sources, revisions and runtimes are as they were.
abbrev pub Apart : {A : Type 0} → Database → A → Database → Type 0
Apart d _ t = (t.sources ≡ d.sources) × (t.revisions ≡ d.revisions) × (t.runtimes ≡ d.runtimes)

module _ {κ} {S B : Type 0} {Q : B → S → Type κ} where
  pub Ensures-refuse :
      (m : Option String) (k : Op S B) (s : S)
      → (m ≡ none → Ensures Q (k s))
      → Ensures Q ((refuse m >> k) s)
  unfolding ◌>>=◌
  Ensures-refuse none k s h = h refl
  Ensures-refuse (some m) k s h = record { post = tt }

guard-Reads : (b : _) (e : _) (d : Database) → Ensures (Reads d) (guard b e d)
unfolding guard
guard-Reads true e d = Ensures-ok _ _ refl
guard-Reads false e d = Ensures-err _ _

check_runtime-Reads : (v : Source) (d : Database) → Ensures (Reads d) (check_runtime v d)
unfolding check_runtime
check_runtime-Reads v d =
    Ensures-when _ _ _ d
      (λ _. Ensures-get_row runtimes _ _ d λ rt _. Ensures-guard _ _ _ d λ _. guard-Reads _ _ d)
      λ _. guard-Reads _ _ d

pub validate_runtime-Reads :
    (site : Site) (v : Source) (d : Database) → Ensures (Reads d) (validate_runtime site v d)
unfolding validate_runtime
validate_runtime-Reads site v d = Ensures-refuse _ _ d λ _. Ensures-guard _ _ _ d λ _.
    Ensures-guard _ _ _ d λ _. Ensures-guard _ _ _ d λ _. Ensures-guard _ _ _ d λ _.
      Ensures-guard _ _ _ d λ _.
        Ensures-bind (check_runtime v) _ d (check_runtime-Reads v d)
          λ _ t e. Ensures-weaken (guard-Reads _ _ t) λ _ u f. f ∙ e

pub save_secret-Apart :
    (site : Site) (w : Draws) (owner : String) (h : Option Headers) (d : Database)
    → Ensures (Apart d) (save_secret site w owner h d)
unfolding save_secret
save_secret-Apart site w owner none d = Ensures-ok _ _ (refl, refl, refl)
save_secret-Apart site w owner (some h) d =
    Ensures-refuse _ _ d λ _. Ensures_put_row_last secrets _ _ d λ _. (refl, refl, refl)

pub put_endpoint-Apart : (v : Source) (d : Database) → Ensures (Apart d) (put_endpoint v d)
unfolding put_endpoint
put_endpoint-Apart v d =
    Ensures-when _ _ _ d (λ _. Ensures-ok _ _ (refl, refl, refl))
      λ _. Ensures_put_row_last endpoints _ _ d λ _. (refl, refl, refl)
