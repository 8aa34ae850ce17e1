-- ===== src/Store/Op/Succeeds.antt =====
-- That an operation succeeds, and what holds then: one rule for each way to build an operation.
use shadow_relay.Prelude.{◌≡◌, refl, Bool, true, false}
use shadow_relay.Store.Op.{when◌run◌or◌, Error, Outcome, ok, Op, write, ◌>>=◌, ◌>>◌, guard}

pub record Succeeds {κ} {S A : Type 0} (Q : A → S → Type κ) (o : Outcome S A) : Type κ where
  pub value : A
  pub after : S
  pub equation : o ≡ ok value after
  pub holds : Q value after

module _ {κ} {S A : Type 0} {Q : A → S → Type κ} where
  pub Succeeds-ok : (a : A) (s : S) → Q a s → Succeeds Q (ok a s)
  Succeeds-ok a s h = record { value = a; after = s; equation = refl; holds = h }

  pub Succeeds-yes :
      {b : Bool} (m n : Op S A) (s : S)
      → b ≡ true
      → Succeeds Q (m s)
      → Succeeds Q ((when b run m or n) s)
  unfolding when◌run◌or◌
  Succeeds-yes m n s e h = rw e h

  pub Succeeds-no :
      {b : Bool} (m n : Op S A) (s : S)
      → b ≡ false
      → Succeeds Q (n s)
      → Succeeds Q ((when b run m or n) s)
  unfolding when◌run◌or◌
  Succeeds-no m n s e h = rw e h

  pub Succeeds-guard :
      {b : Bool} (x : Error) (k : Op S A) (s : S)
      → b ≡ true
      → Succeeds Q (k s)
      → Succeeds Q ((guard b x >> k) s)
  unfolding ◌>>=◌ guard
  Succeeds-guard x k s e h = rw e h

  pub Succeeds-write : (m : Op S A) (s : S) → Succeeds Q (m s) → Succeeds Q (write m s)
  unfolding write
  Succeeds-write m s h = record {
    value = h.value;
    after = h.after;
    equation = rw (h.equation, write) refl;
    holds = h.holds;
  }

module _ {κ κ'} {S A B : Type 0} {P : A → S → Type κ'} {Q : B → S → Type κ} where
  pub Succeeds-bind :
      (m : Op S A) (f : A → Op S B) (s : S)
      → Succeeds P (m s)
      → ((a : A) (t : S) → P a t → Succeeds Q (f a t))
      → Succeeds Q ((m >>= f) s)
  unfolding ◌>>=◌
  Succeeds-bind m f s h k = rw (h.equation, ◌>>=◌) (k h.value h.after h.holds)
