-- ===== src/Store/Op.antt =====
-- Operations on a state: each ends with a value or an error, and with the state that it leaves.
pub mod Ensures
pub mod Succeeds
pub mod Always
use shadow_relay.Prelude.{String, Bool, true, false, List}

-- The errors that the callers tell apart; `message` is `errors.New`.
pub data Error : Type 0 where
  not_found : Error
  conflict : Error
  -- a primary key, a foreign key or a unique index refuses the row
  constraint : Error
  message : String → Error
  -- `PublicationError` with its exclusions
  publication : String → List (String × String) → Error

pub data Outcome (S A : Type 0) : Type 0 where
  ok : A → S → Outcome S A
  err : Error → S → Outcome S A

abbrev pub Op : Type 0 → Type 0 → Type 0
Op S A = S → Outcome S A

module _ {S A : Type 0} where
  abbrev pub state : Outcome S A → S
  state (ok a s) = s
  state (err e s) = s

  abbrev pub pure : A → Op S A
  pure a s = ok a s

  abbrev pub fail : Error → Op S A
  fail e s = err e s

  -- `DB.Write`: the transaction commits what the function did, or rolls all of it back.
  unfoldable pub write : Op S A → Op S A
  write m s = elim (m s) [ ok a t ↦ ok a t | err e t ↦ err e s ]

-- A test between two steps of an operation.
infix 1 when◌run◌or◌
unfoldable pub when◌run◌or◌ : {S A : Type 0} → Bool → Op S A → Op S A → Op S A
when true run m or n = m
when false run m or n = n

module _ {S A B : Type 0} where
  infixl 5 ◌>>=◌ ◌>>◌
  unfoldable pub ◌>>=◌ : Op S A → (A → Op S B) → Op S B
  ◌>>=◌ m f s = elim (m s) [ ok a t ↦ f a t | err e t ↦ err e t ]

  abbrev pub ◌>>◌ : Op S A → Op S B → Op S B
  m >> k = m >>= λ _. k

-- What an operation does about the error of another one.
unfoldable pub rescue : {S A : Type 0} → Op S A → (Error → Op S A) → Op S A
rescue m h s = elim (m s) [ ok a t ↦ ok a t | err e t ↦ h e t ]

unfoldable pub guard : {S : Type 0} → Bool → Error → Op S Unit
guard true e s = ok tt s
guard false e s = err e s
