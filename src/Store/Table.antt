-- ===== src/Store/Table.antt =====
-- A table of the database, `id text PRIMARY KEY, data jsonb`: rows by id, in the order of the ids,
-- which is the order of `SELECT data … ORDER BY id`. The ids that the program makes are ASCII,
-- and are compared by bytes.
use Prim.Native.String.{compare}
use text.Mathlib.Text.{is_lt}
use mathlib.Core.Path.{subst}
use shadow_relay.Prelude.{
  ◌≢◌, Bool-cases, inl, inr, String, ◌≡◌, refl, Bool, true, false, Option, none, some, List, [],
  ◌∷◌, arith, ◌==◌, eq_iff, if◌then◌else◌,
}

abbrev pub text_lt : String → String → Bool
text_lt s t = is_lt (compare s t)

abbrev pub Table {ℓ} : Type ℓ → Type ℓ
Table V = List (String × V)

module _ {ℓ} {V : Type ℓ} where
  unfoldable pub get : Table V → String → Option V
  get [] k = none
  get ((j, v) ∷ t) k = if j == k then some v else get t k

  abbrev pub has : Table V → String → Bool
  has t k = elim (get t k) [ none ↦ false | some v ↦ true ]

  unfoldable pub replace : Table V → String → V → Table V
  replace [] k v = []
  replace ((j, w) ∷ t) k v = if j == k then (k, v) ∷ t else (j, w) ∷ replace t k v

  unfoldable pub place : Table V → String → V → Table V
  place [] k v = (k, v) ∷ []
  place ((j, w) ∷ t) k v = if text_lt k j then (k, v) ∷ (j, w) ∷ t else (j, w) ∷ place t k v

  -- `INSERT … ON CONFLICT(id) DO UPDATE`
  unfoldable pub put : Table V → String → V → Table V
  put t k v = if has t k then replace t k v else place t k v

  -- `DELETE … WHERE id = k`
  unfoldable pub remove : Table V → String → Table V
  remove [] k = []
  remove ((j, v) ∷ t) k = if j == k then remove t k else (j, v) ∷ remove t k

  -- `DELETE … WHERE p`, and the cascades of the foreign keys.
  unfoldable pub remove_where : (V → Bool) → Table V → Table V
  remove_where p [] = []
  remove_where p ((j, v) ∷ t) = if p v then remove_where p t else (j, v) ∷ remove_where p t

  -- `SELECT data … ORDER BY id`
  unfoldable pub rows : Table V → List V
  rows [] = []
  rows ((j, v) ∷ t) = v ∷ rows t

  get-replace :
      (t : Table V) (k j : String) (v : V)
      → get (replace t k v) j ≡ (if k == j then (if has t k then some v else none) else get t j)
  unfolding get replace
  get-replace [] k j v = ground arith
  get-replace ((i, w) ∷ t) k j v =
      ground (arith, get-replace t k j v, eq_iff k j, eq_iff i k, eq_iff i j)

  get-place :
      (t : Table V) (k j : String) (v : V)
      → get t k ≡ none
      → get (place t k v) j ≡ (if k == j then some v else get t j)
  unfolding get place
  get-place [] k j v e = refl
  get-place ((i, w) ∷ t) k j v e =
      ground (arith, get-place t k j v, eq_iff k j, eq_iff i k, eq_iff i j)

  pub get-put :
      (t : Table V) (k j : String) (v : V)
      → get (put t k v) j ≡ (if k == j then some v else get t j)
  unfolding put
  get-put t k j v = ground (arith, get-replace t k j v, get-place t k j v)

  pub get-put_other : (t : Table V) (k j : String) (v : V) → k ≢ j → get (put t k v) j ≡ get t j
  get-put_other t k j v ne = ground (arith, get-put t k j v, eq_iff k j)

  pub get-put_same : (t : Table V) (k : String) (v : V) → get (put t k v) k ≡ some v
  get-put_same t k v = ground (arith, get-put t k k v, eq_iff k k)

  pub get-remove :
      (t : Table V) (k j : String) → get (remove t k) j ≡ (if k == j then none else get t j)
  unfolding get remove
  get-remove [] k j = ground arith
  get-remove ((i, w) ∷ t) k j = ground (arith, get-remove t k j, eq_iff k j, eq_iff i k, eq_iff i j)

-- A row is read once and for all.
pub get_functional {ℓ} :
    {V : Type ℓ} (t : Table V) (k : String) (u v : V) → get t k ≡ some u → get t k ≡ some v → u ≡ v
get_functional t k u v p q = cc

-- What is read after a write is what was written, or what was there under another id.
pub put_cases {ℓ κ} :
    {V : Type ℓ} (P : String → V → Type κ) (t : Table V) (k : String) (v : V)
    → P k v
    → ((j : String) (u : V) → k ≢ j → get t j ≡ some u → P j u)
    → (j : String) (u : V) → get (put t k v) j ≡ some u
    → P j u
put_cases P t k v here there j u e = elim (Bool-cases (k == j)) [
  | inl y ↦
      subst (λ x. P x u) ((eq_iff k j).0 y) (subst (P k) (ground (arith, get-put t k j v)) here)
  | inr n ↦ there j u (ground (arith, eq_iff k j)) (ground (arith, get-put t k j v))
]

-- No id stands twice.
abbrev pub IsDistinct {ℓ} : {V : Type ℓ} → Table V → Type ℓ
IsDistinct [] = Unit
IsDistinct ((k, v) ∷ t) = (get t k ≡ none) × IsDistinct t

module _ {ℓ} {V : Type ℓ} where
  replace-IsDistinct :
      (t : Table V) (k : String) (v : V) → IsDistinct t → IsDistinct (replace t k v)
  unfolding replace
  replace-IsDistinct [] k v h = tt
  replace-IsDistinct ((i, w) ∷ t) k v h =
      ground (arith, replace-IsDistinct t k v h.1, get-replace t k i v, eq_iff i k, eq_iff k i)

  place-IsDistinct :
      (t : Table V) (k : String) (v : V) → get t k ≡ none → IsDistinct t → IsDistinct (place t k v)
  unfolding place get
  place-IsDistinct [] k v e h = (refl, tt)
  place-IsDistinct ((i, w) ∷ t) k v e h =
      ground (arith, place-IsDistinct t k v, h.1, get-place t k i v, eq_iff i k, eq_iff k i)

  pub put-IsDistinct : (t : Table V) (k : String) (v : V) → IsDistinct t → IsDistinct (put t k v)
  unfolding put
  put-IsDistinct t k v h = ground (arith, replace-IsDistinct t k v h, place-IsDistinct t k v)

pub ruleset table_laws = (get-put, get-remove)

-- What is read of a table is its first row, or read of the others.
pub cons_cases {ℓ κ} :
    {V : Type ℓ} (P : String → V → Type κ) (k : String) (v : V) (t : Table V)
    → P k v
    → ((j : String) (u : V) → get t j ≡ some u → P j u)
    → (j : String) (u : V) → get ((k, v) ∷ t) j ≡ some u
    → P j u
unfolding get
cons_cases P k v t here there j u e = elim (Bool-cases (k == j)) [
  | inl y ↦ subst (λ x. P x u) ((eq_iff k j).0 y) (subst (P k) (ground arith) here)
  | inr n ↦ there j u (ground arith)
]

pub nil_cases {ℓ κ} :
    {V : Type ℓ} (P : String → V → Type κ) (j : String) (u : V) → get [] j ≡ some u → P j u
unfolding get
nil_cases P j u e = cc
