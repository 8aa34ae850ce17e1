-- ===== src/Service/Probing/Health.antt =====
-- The health of a source over successive probes.
use mathlib.Core.Path.{subst}
use shadow_relay.Prelude.{ℕ, zero, suc, ◌+◌, ◌-◌, ◌*◌, ◌≡◌, refl, true, false, List, [], ◌∷◌, arith}
use shadow_relay.Model.Source.{Source, Probe, Health, degraded, failing, avoid, is_held}
use shadow_relay.Service.Draws.{Draws}
use shadow_relay.Service.Probing.{probed}

-- Probes that arrive one after another.
unfoldable pub probed_all : List (Draws × Probe) → Source → Source
probed_all [] v = v
probed_all ((w, p) ∷ ps) v = probed_all ps (probed w p v)

-- All of them failed.
abbrev pub AllFailed : List (Draws × Probe) → Type 0
AllFailed [] = Unit {0}
AllFailed ((w, p) ∷ ps) = (p.success ≡ false) × AllFailed ps

abbrev pub count_probes : List (Draws × Probe) → ℕ
count_probes [] = 0
count_probes (x ∷ ps) = suc (count_probes ps)

-- The health that a count of failures stands for.
abbrev pub after_failures : ℕ → Health
after_failures zero = degraded
after_failures (suc zero) = degraded
after_failures (suc (suc zero)) = failing
after_failures (suc (suc (suc n))) = avoid

-- no sequence of probes, good or bad, changes the health or the score of a source that is
-- quarantined or disabled.
pub probed_all_held :
    (ps : List (Draws × Probe)) (v : Source)
    → is_held v.health ≡ true
    → ((probed_all ps v).health ≡ v.health) × ((probed_all ps v).score ≡ v.score)
unfolding probed_all probed
probed_all_held [] v h = (refl, refl)
probed_all_held ((w, p) ∷ ps) v h = ground (arith, probed_all_held ps (probed w p v))

failed_once :
    (w : Draws) (p : Probe) (v : Source)
    → p.success ≡ false
    → is_held v.health ≡ false
    → let u = probed w p v in
      (u.failures ≡ suc v.failures)
      × (u.health ≡ after_failures (suc v.failures))
      × (u.score ≡ 60 - (suc v.failures) * 20)
      × (is_held u.health ≡ false)
unfolding probed
failed_once w p v f h = go v.failures refl
  where
    go :
        (n : ℕ)
        → v.failures ≡ n
        → let u = probed w p v in
          (u.failures ≡ suc v.failures)
          × (u.health ≡ after_failures (suc v.failures))
          × (u.score ≡ 60 - (suc v.failures) * 20)
          × (is_held u.health ≡ false)
    go zero e = ground arith
    go (suc zero) e = ground arith
    go (suc (suc n)) e = ground arith

abbrev AfterFailures : Source → ℕ → Type 0
AfterFailures u n = (u.failures ≡ n) × (u.health ≡ after_failures n) × (u.score ≡ 60 - n * 20)

suc_of_one : (n : ℕ) → suc n ≡ n + 1
suc_of_one n = omega arith

-- after one or more failed probes in a row, the failures of a source that is neither quarantined
-- nor disabled have grown by their number n, its score is 60 - 20 n for the new count n of
-- failures, and never below 0, and its health is degraded, then failing from the second failure
-- on, then avoid from the third.
pub probed_all_failed :
    (p : Draws × Probe) (ps : List (Draws × Probe)) (v : Source)
    → AllFailed (p ∷ ps)
    → is_held v.health ≡ false
    → let n = v.failures + count_probes (p ∷ ps) in
      let u = probed_all (p ∷ ps) v in
      (u.failures ≡ n) × (u.health ≡ after_failures n) × (u.score ≡ 60 - n * 20)
unfolding probed_all
probed_all_failed (w, p) [] v f h =
    let (n, e, s, _) = failed_once w p v f.0 h in
    subst (AfterFailures (probed w p v)) (suc_of_one v.failures) (n, e, s)
probed_all_failed (w, p) (q ∷ ps) v f h =
    let (n, e, s, free) = failed_once w p v f.0 h in
    subst (AfterFailures (probed_all (q ∷ ps) (probed w p v))) (omega (arith, n))
      (probed_all_failed q ps (probed w p v) f.1 free)
