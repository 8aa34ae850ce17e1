-- ===== src/Adapter/Difference.antt =====
-- Difference of internal/adapter/adapter.go: how a new revision of a source differs from the
-- active one, and whether an operator has to review it.
pub mod Counting
pub mod Laws
use shadow_relay.Prelude.{
  ℕ, zero, suc, ◌+◌, ◌*◌, String, Bool, true, false, not, ◌&&◌, ◌||◌, Option, none, some, List, [],
  ◌∷◌, ◌==◌, if◌then◌else◌, leb, ltb, contains,
}
use shadow_relay.Store.Table.{Table, get, put, text_lt}
use shadow_relay.Model.Source.{Item, Normalized, Diff}

-- What the comparison takes from net/url and encoding/json.
pub record Reader : Type 0 where
  -- the host name of `url.Parse(s)`, "" where the parse fails or there is none
  pub host : String → String
  -- `json.Marshal` of an item
  pub raw : Item → String

abbrev pub item_key : Item → String
item_key x = if x.id == "" then x.name else x.id

-- Sorted, without repetitions: the keys of a `map[string]bool` after `sort.Strings`.
unfoldable pub add_host : String → List String → List String
add_host h [] = h ∷ []
add_host h (x ∷ xs) =
    if x == h then x ∷ xs else if text_lt h x then h ∷ x ∷ xs else x ∷ add_host h xs

-- Go's `len` of the map, and the two counts of the loops over it.
unfoldable pub size : Table String → ℕ
size [] = 0
size ((k, v) ∷ t) = suc (size t)

unfoldable pub missing : Table String → Table String → ℕ
missing [] b = 0
missing ((k, v) ∷ t) b = elim (get b k) [ none ↦ suc (missing t b) | some w ↦ missing t b ]

unfoldable pub altered : Table String → Table String → ℕ
altered [] b = 0
altered ((k, v) ∷ t) b = elim (get b k) [
  | none ↦ altered t b
  | some w ↦ if w == v then altered t b else suc (altered t b)
]

-- The hosts of the second list that the first lacks.
unfoldable pub new_hosts : List String → List String → List String
new_hosts old [] = []
new_hosts old (h ∷ hs) = if contains old h then new_hosts old hs else h ∷ new_hosts old hs

abbrev pub is_empty {ℓ} : {A : Type ℓ} → List A → Bool
is_empty [] = true
is_empty (x ∷ xs) = false

module _ (rd : Reader) where
  -- A later item under the same key replaces an earlier one.
  unfoldable pub entries : List Item → Table String → Table String
  entries [] t = t
  entries (x ∷ xs) t = entries xs (put t (item_key x) (rd.raw x))

  unfoldable pub hosts : List Item → List String → List String
  hosts [] hs = hs
  hosts (x ∷ xs) hs = hosts xs (if rd.host x.url == "" then hs else add_host (rd.host x.url) hs)

  -- `float64(removed)/float64(len(a)) >= 0.2` is `len(a) <= 5 * removed`: the quotient is rounded
  -- to the nearest float, as the literal is.
  unfoldable pub difference : Normalized → Normalized → Diff
  difference old next =
      let a = entries old.items [] in
      let b = entries next.items [] in
      let before = hosts old.items [] in
      let after = hosts next.items [] in
      let domains = (if is_empty before then [] else new_hosts before after) in
      record {
        added = missing b a;
        removed = missing a b;
        changed = altered b a;
        domain_changes = domains;
        requires_review =
            (ltb 0 (size a) && leb (size a) (5 * missing a b)) || not (is_empty domains);
      }
