-- ===== src/Store/Op/Ensures.antt =====
-- What holds when an operation succeeds, one rule for each way to build an operation. A failed
-- transaction is rolled back, so nothing is asked of it.
use shadow_relay.Prelude.{◌≡◌, refl, Bool, true, false, arith}
use shadow_relay.Store.Op.{
  when◌run◌or◌, Error, Outcome, ok, err, Op, state, write, ◌>>=◌, ◌>>◌, guard,
}

abbrev pub Post {κ} : {S A : Type 0} → (A → S → Type κ) → Outcome S A → Type κ
Post Q (ok a s) = Q a s
Post Q (err e s) = Unit

pub record Ensures {κ} {S A : Type 0} (Q : A → S → Type κ) (o : Outcome S A) : Type κ where
  pub post : Post Q o

module _ {κ} {S A : Type 0} {Q : A → S → Type κ} where
  pub Ensures-ok : (a : A) (s : S) → Q a s → Ensures Q (ok a s)
  Ensures-ok a s h = record { post = h }

  pub Ensures-err : (e : Error) (s : S) → Ensures Q (err e s)
  Ensures-err e s = record { post = tt }

  pub Ensures-when :
      (b : Bool) (m n : Op S A) (s : S)
      → (b ≡ true → Ensures Q (m s))
      → (b ≡ false → Ensures Q (n s))
      → Ensures Q ((when b run m or n) s)
  unfolding when◌run◌or◌
  Ensures-when true m n s h k = h refl
  Ensures-when false m n s h k = k refl

  pub Ensures-guard :
      (b : Bool) (e : Error) (k : Op S A) (s : S)
      → (b ≡ true → Ensures Q (k s))
      → Ensures Q ((guard b e >> k) s)
  unfolding ◌>>=◌ guard
  Ensures-guard true e k s h = h refl
  Ensures-guard false e k s h = record { post = tt }

  pub Ensures-result : (o : Outcome S A) {a : A} {s : S} → Ensures Q o → o ≡ ok a s → Q a s
  Ensures-result (ok b t) h e = ground (arith, h.post)
  Ensures-result (err x t) h e = cc

module _ {κ κ'} {S A : Type 0} {P : A → S → Type κ} {Q : A → S → Type κ'} where
  pub Ensures-both :
      {o : Outcome S A} → Ensures P o → Ensures Q o → Ensures (λ a s. P a s × Q a s) o
  Ensures-both {o = ok a s} h k = record { post = (h.post, k.post) }
  Ensures-both {o = err e s} h k = record { post = tt }

  pub Ensures-weaken :
      {o : Outcome S A} → Ensures P o → ((a : A) (s : S) → P a s → Q a s) → Ensures Q o
  Ensures-weaken {o = ok a s} h k = record { post = k a s h.post }
  Ensures-weaken {o = err e s} h k = record { post = tt }

module _ {κ} {S A B : Type 0} {P : A → S → Type κ} {Q : B → S → Type κ} where
  pub Ensures-bind :
      (m : Op S A) (f : A → Op S B) (s : S)
      → Ensures P (m s)
      → ((a : A) (t : S) → P a t → Ensures Q (f a t))
      → Ensures Q ((m >>= f) s)
  unfolding ◌>>=◌
  Ensures-bind m f s h k = go (m s) h
    where
      go :
          (o : Outcome S A)
          → Ensures P o
          → Ensures Q (elim o [ ok a t ↦ f a t | err e t ↦ err e t ])
      go (ok a t) q = k a t q.post
      go (err e t) q = record { post = tt }

module _ {κ} {S A B : Type 0} {Q : B → S → Type κ} where
  -- A step of which nothing has to be known.
  pub Ensures-skip :
      (m : Op S A) (f : A → Op S B) (s : S)
      → ((a : A) (t : S) → Ensures Q (f a t))
      → Ensures Q ((m >>= f) s)
  unfolding ◌>>=◌
  Ensures-skip m f s k = go (m s)
    where
      go : (o : Outcome S A) → Ensures Q (elim o [ ok a t ↦ f a t | err e t ↦ err e t ])
      go (ok a t) = k a t
      go (err e t) = record { post = tt }

-- What succeeded in a transaction is what its function did.
pub write-eq-ok :
    {S A : Type 0} (m : Op S A) (s : S) {a : A} {t : S} → write m s ≡ ok a t → m s ≡ ok a t
unfolding write
write-eq-ok {S} {A} m s {a} {t} e = go (m s) e
  where
    go :
        (o : Outcome S A)
        → (elim o as (λ _. Outcome S A) [ ok a t ↦ ok a t | err e t ↦ err e s ]) ≡ ok a t
        → o ≡ ok a t
    go (ok b u) e = e
    go (err x u) e = cc

-- An invariant of a transaction has to be checked only where the transaction succeeds.
pub write-keeps {κ} :
    {S A : Type 0} (P : S → Type κ) (m : Op S A) (s : S)
    → P s
    → (P s → Ensures (λ a t. P t) (m s))
    → P (state (write m s))
unfolding write
write-keeps {S} {A} P m s p h = go (m s) (h p)
  where
    go :
        (o : Outcome S A)
        → Ensures (λ a t. P t) o
        → P (state (elim o as (λ _. Outcome S A) [ ok a t ↦ ok a t | err e t ↦ err e s ]))
    go (ok a t) q = q.post
    go (err e t) q = p

-- A transaction that only reads leaves the state as it was.
pub write-reads :
    {S A : Type 0} (m : Op S A) (s : S) → Ensures (λ (a : A) t. t ≡ s) (m s) → state (write m s) ≡ s
unfolding write
write-reads {S} {A} m s h = go (m s) h
  where
    go :
        (o : Outcome S A)
        → Ensures (λ (a : A) t. t ≡ s) o
        → state (elim o as (λ _. Outcome S A) [ ok a t ↦ ok a t | err e t ↦ err e s ]) ≡ s
    go (ok a t) q = q.post
    go (err e t) q = refl

pub Ensures-write {κ} :
    {S A : Type 0} {Q : A → S → Type κ} (m : Op S A) (s : S)
    → Ensures Q (m s)
    → Ensures Q (write m s)
unfolding write
Ensures-write {S} {A} {Q = Q} m s h = go (m s) h
  where
    go :
        (o : Outcome S A)
        → Ensures Q o
        → Ensures Q (elim o as (λ _. Outcome S A) [ ok a t ↦ ok a t | err e t ↦ err e s ])
    go (ok a t) q = q
    go (err e t) q = record { post = tt }

pub Ensures_guard_last {κ} :
    {S : Type 0} {Q : Unit → S → Type κ} (b : Bool) (e : Error) (s : S)
    → (b ≡ true → Q tt s)
    → Ensures Q (guard b e s)
unfolding guard
Ensures_guard_last true e s h = record { post = h refl }
Ensures_guard_last false e s h = record { post = tt }
