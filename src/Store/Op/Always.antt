-- ===== src/Store/Op/Always.antt =====
-- What holds of the database whether an operation succeeds or fails, through operations that are
-- several transactions.
use mathlib.Core.Path.{subst}
use shadow_relay.Prelude.{◌≡◌, ◌∙◌, ap, sym, refl, Bool, true, false}
use shadow_relay.Store.Op.{
  when◌run◌or◌, Error, Outcome, ok, err, Op, state, ◌>>=◌, ◌>>◌, guard, rescue,
}

module _ {κ} {S A B : Type 0} (P : S → Type κ) where
  pub Always-bind :
      (m : Op S A) (f : A → Op S B) (s : S)
      → P (state (m s))
      → ((a : A) (t : S) → m s ≡ ok a t → P t → P (state (f a t)))
      → P (state ((m >>= f) s))
  unfolding ◌>>=◌
  Always-bind m f s h k = go (m s) refl h
    where
      go :
          (o : Outcome S A)
          → m s ≡ o
          → P (state o)
          → P (state (elim o as (λ _. Outcome S B) [ ok a t ↦ f a t | err e t ↦ err e t ]))
      go (ok a t) e q = k a t e q
      go (err e t) x q = q

module _ {κ} {S A : Type 0} (P : S → Type κ) where
  pub Always-when :
      (b : Bool) (m n : Op S A) (s : S)
      → (b ≡ true → P (state (m s)))
      → (b ≡ false → P (state (n s)))
      → P (state ((when b run m or n) s))
  unfolding when◌run◌or◌
  Always-when true m n s h k = h refl
  Always-when false m n s h k = k refl

  pub Always-guard :
      (b : Bool) (e : Error) (k : Op S A) (s : S)
      → P s
      → (b ≡ true → P (state (k s)))
      → P (state ((guard b e >> k) s))
  unfolding ◌>>=◌ guard
  Always-guard true e k s p h = h refl
  Always-guard false e k s p h = p

-- A step that leaves the state as it is.
pub Always-quiet {κ} :
    {S A B : Type 0} (P : S → Type κ) (m : Op S A) (f : A → Op S B) (s : S)
    → P s
    → state (m s) ≡ s
    → ((a : A) → P (state (f a s)))
    → P (state ((m >>= f) s))
Always-quiet P m f s p e k =
    Always-bind P m f s (subst P (sym e) p)
      λ a t q _. subst (λ x. P (state (f a x))) (sym (ap state (sym q) ∙ e)) (k a)

pub Always-rescue {κ} :
    {S A : Type 0} (P : S → Type κ) (m : Op S A) (h : Error → Op S A) (s : S)
    → P (state (m s))
    → ((e : Error) (t : S) → P t → P (state (h e t)))
    → P (state (rescue m h s))
unfolding rescue
Always-rescue {S} {A} P m h s p k = go (m s) p
  where
    go :
        (o : Outcome S A)
        → P (state o)
        → P (state (elim o as (λ _. Outcome S A) [ ok a t ↦ ok a t | err e t ↦ h e t ]))
    go (ok a t) q = q
    go (err e t) q = k e t q
