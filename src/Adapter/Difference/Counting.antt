-- ===== src/Adapter/Difference/Counting.antt =====
-- The numbers that Difference reports, counted on the documents themselves.
use shadow_relay.Prelude.{
  ℕ, ◌∙◌, if◌then◌else◌, String, Bool, false, not, ◌&&◌, ◌||◌, List, [], ◌∷◌, ◌==◌, ◌≡◌, refl,
  arith, eq_iff, any, contains, length, Bool-cases, inl, inr,
}
use shadow_relay.Store.Table.{Table, get, has, put, get-put, IsDistinct, put-IsDistinct}
use shadow_relay.Model.Source.{Item}
use shadow_relay.Adapter.Difference.{Reader, item_key, size, missing, entries, hosts, add_host}

-- Is there an item under the key, or at the host?
unfoldable pub has_key : List Item → String → Bool
has_key xs k = any (λ x. item_key x == k) xs

unfoldable pub has_host : Reader → List Item → String → Bool
has_host rd xs h = not (h == "") && any (λ x. rd.host x.url == h) xs

abbrev pub IsUnrepeated : List String → Type 0
IsUnrepeated [] = Unit {0}
IsUnrepeated (k ∷ ks) = (contains ks k ≡ false) × IsUnrepeated ks

-- So many texts pass a test.
pub record Counts (n : ℕ) (p : String → Bool) : Type 0 where
  pub texts : List String
  pub unrepeated : IsUnrepeated texts
  pub complete : (k : String) → contains texts k ≡ p k
  pub number : length texts ≡ n

-- The keys of the first table that the second lacks.
unfoldable lost : Table String → Table String → List String
lost [] b = []
lost ((k, v) ∷ t) b = if has b k then lost t b else k ∷ lost t b

contains-lost :
    (t b : Table String) (k : String) → contains (lost t b) k ≡ (has t k && not (has b k))
unfolding lost get
contains-lost [] b k = refl
contains-lost ((j, v) ∷ t) b k = ground (arith, contains-lost t b k, eq_iff j k)

lost-IsUnrepeated : (t b : Table String) → IsDistinct t → IsUnrepeated (lost t b)
unfolding lost
lost-IsUnrepeated [] b h = tt
lost-IsUnrepeated ((k, v) ∷ t) b h = elim (Bool-cases (has b k)) [
  | inl y ↦ rw y (lost-IsUnrepeated t b h.1)
  | inr n ↦ rw n (ground (arith, contains-lost t b k, h.0), lost-IsUnrepeated t b h.1)
]

length-lost : (t b : Table String) → length (lost t b) ≡ missing t b
unfolding lost missing
length-lost [] b = refl
length-lost ((k, v) ∷ t) b = ground (arith, length-lost t b)

missing-nil : (t : Table String) → missing t [] ≡ size t
unfolding missing size get
missing-nil [] = refl
missing-nil ((k, v) ∷ t) = rw (missing-nil t)

has-entries :
    (rd : Reader) (xs : List Item) (t : Table String) (k : String)
    → has (entries rd xs t) k ≡ (has t k || has_key xs k)
unfolding entries has_key
has-entries rd [] t k = ground arith
has-entries rd (x ∷ xs) t k = ground (
  arith,
  has-entries rd xs (put t (item_key x) (rd.raw x)) k,
  get-put t (item_key x) k (rd.raw x),
  eq_iff (item_key x) k,
  eq_iff k (item_key x),
)

pub entries-IsDistinct :
    (rd : Reader) (xs : List Item) (t : Table String) → IsDistinct t → IsDistinct (entries rd xs t)
unfolding entries
entries-IsDistinct rd [] t h = h
entries-IsDistinct rd (x ∷ xs) t h =
    entries-IsDistinct rd xs _ (put-IsDistinct t (item_key x) (rd.raw x) h)

contains-add_host :
    (h : String) (hs : List String) (j : String)
    → contains (add_host h hs) j ≡ (h == j || contains hs j)
unfolding add_host
contains-add_host h [] j = refl
contains-add_host h (x ∷ hs) j = ground (arith, contains-add_host h hs j, eq_iff x h)

pub contains-hosts :
    (rd : Reader) (xs : List Item) (hs : List String) (h : String)
    → contains hs "" ≡ false
    → contains (hosts rd xs hs) h ≡ (contains hs h || has_host rd xs h)
unfolding hosts has_host
contains-hosts rd [] hs h n = ground arith
contains-hosts rd (x ∷ xs) hs h n = elim (Bool-cases (rd.host x.url == "")) [
  | inl y ↦ rw y (
      contains-hosts rd xs hs h n
      ∙ ground (arith, eq_iff (rd.host x.url) "", eq_iff (rd.host x.url) h, eq_iff h ""))
  | inr m ↦ rw m (
      contains-hosts rd xs (add_host (rd.host x.url) hs) h
        (ground (arith, contains-add_host (rd.host x.url) hs ""))
      ∙ ground (
        arith,
        contains-add_host (rd.host x.url) hs h,
        eq_iff (rd.host x.url) "",
        eq_iff (rd.host x.url) h,
        eq_iff h "",
      ))
]

-- The keys of the first items that the second lack, as often as `missing` says.
pub counted :
    (rd : Reader) (xs ys : List Item)
    → Counts
        (missing (entries rd xs []) (entries rd ys []))
        (λ k. has_key xs k && not (has_key ys k))
unfolding get
counted rd xs ys =
    let a = entries rd xs [] in
    let b = entries rd ys [] in
    record {
      texts = lost a b;
      unrepeated = lost-IsUnrepeated a b (entries-IsDistinct rd xs [] tt);
      complete =
          λ k. contains-lost a b k ∙ rw (has-entries rd xs [] k, has-entries rd ys [] k) refl;
      number = length-lost a b;
    }

pub counted_all : (rd : Reader) (xs : List Item) → Counts (size (entries rd xs [])) (has_key xs)
unfolding get
counted_all rd xs =
    let a = entries rd xs [] in
    record {
      texts = lost a [];
      unrepeated = lost-IsUnrepeated a [] (entries-IsDistinct rd xs [] tt);
      complete = λ k. contains-lost a [] k ∙ ground (arith, has-entries rd xs [] k);
      number = length-lost a [] ∙ missing-nil a;
    }
