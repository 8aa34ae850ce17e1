-- ===== src/Adapter/Difference/Laws.antt =====
-- What the comparison of two revisions promises.
use shadow_relay.Prelude.{
  if◌then◌else◌, ◌*◌, ◌<◌, ◌⊎◌, ◌≡◌, refl, String, true, false, none, some, List, [], ◌∷◌, arith,
  eq_iff, eq_refl, contains, inl, inr, ◌⊎◌, Bool-cases, ◌==◌, ◌&&◌, not, ◌↔◌, sym, ◌∙◌, ap,
}
use shadow_relay.Store.Table.{Table, get, IsDistinct}
use shadow_relay.Model.Source.{Normalized, empty_normalized}
use shadow_relay.Adapter.Difference.Counting.{
  entries-IsDistinct, Counts, counted, counted_all, has_key, has_host, contains-hosts,
}
use shadow_relay.Adapter.Difference.{
  Reader, size, missing, altered, new_hosts, entries, hosts, difference, is_empty,
}
use mathlib.Core.Bool.{false≢true, not}

-- Every key of the first table has its value in the second.
abbrev Within : Table String → Table String → Type 0
Within [] b = Unit {0}
Within ((k, v) ∷ t) b = (get b k ≡ some v) × Within t b

Within-missing : (t b : Table String) → Within t b → (missing t b ≡ 0) × (altered t b ≡ 0)
unfolding missing altered
Within-missing [] b h = (refl, refl)
Within-missing ((k, v) ∷ t) b h = ground (arith, Within-missing t b h.1, eq_refl v)

-- A key in front of a table that lacks it hides nothing.
Within-cons :
    (t b : Table String) (k v : String) → get t k ≡ none → Within t b → Within t ((k, v) ∷ b)
unfolding get
Within-cons [] b k v e h = tt
Within-cons ((j, w) ∷ t) b k v e h =
    ground (arith, Within-cons t b k v, h.1, eq_iff k j, eq_iff j k)

Within-self : (t : Table String) → IsDistinct t → Within t t
unfolding get
Within-self [] h = tt
Within-self ((k, v) ∷ t) h = (rw eq_refl, Within-cons t t k v h.0 (Within-self t h.1))

-- No host is new to a list that has them all.
abbrev pub AllIn : List String → List String → Type 0
AllIn [] old = Unit {0}
AllIn (h ∷ hs) old = (contains old h ≡ true) × AllIn hs old

AllIn-new : (hs old : List String) → AllIn hs old → new_hosts old hs ≡ []
unfolding new_hosts
AllIn-new [] old h = refl
AllIn-new (x ∷ xs) old h = ground (arith, AllIn-new xs old h.1)

AllIn-cons : (hs old : List String) (x : String) → AllIn hs old → AllIn hs (x ∷ old)
AllIn-cons [] old x h = tt
AllIn-cons (y ∷ hs) old x h = (ground arith, AllIn-cons hs old x h.1)

AllIn-self : (hs : List String) → AllIn hs hs
AllIn-self [] = tt
AllIn-self (x ∷ xs) = (rw eq_refl, AllIn-cons xs xs x (AllIn-self xs))

-- a document does not differ from itself: nothing is added, removed or changed, no host is new,
-- and no review is asked for.
pub difference_self :
    (rd : Reader) (n : Normalized)
    → let d = difference rd n n in
      (d.added ≡ 0)
      × (d.removed ≡ 0)
      × (d.changed ≡ 0)
      × (d.domain_changes ≡ [])
      × (d.requires_review ≡ false)
unfolding difference
difference_self rd n =
    let w = Within-self (entries rd n.items []) (entries-IsDistinct rd n.items [] tt) in
    ground (
      arith,
      Within-missing (entries rd n.items []) (entries rd n.items []) w,
      AllIn-new (hosts rd n.items []) (hosts rd n.items []) (AllIn-self (hosts rd n.items [])),
    )

altered-nil : (t : Table String) → altered t [] ≡ 0
unfolding altered get
altered-nil [] = refl
altered-nil ((k, v) ∷ t) = altered-nil t

-- The first revision of a source needs no review, whatever it holds, and all of its keys are new.
pub difference_first :
    (rd : Reader) (n : Normalized)
    → let d = difference rd empty_normalized n in
      (d.removed ≡ 0)
      × (d.changed ≡ 0)
      × (d.requires_review ≡ false)
      × (d.added ≡ size (entries rd n.items []))
unfolding difference entries hosts missing size get
difference_first rd n =
    (refl, altered-nil (entries rd n.items []), refl, missing-nil (entries rd n.items []))
  where
    missing-nil : (t : Table String) → missing t [] ≡ size t
    missing-nil [] = refl
    missing-nil ((k, v) ∷ t) = rw (missing-nil t)

-- What `new_hosts` leaves out was known.
AllIn-none_new : (hs old : List String) → new_hosts old hs ≡ [] → AllIn hs old
unfolding new_hosts
AllIn-none_new [] old e = tt
AllIn-none_new (x ∷ xs) old e = ground (arith, AllIn-none_new xs old)

empty_eq : {l : List String} → is_empty l ≡ true → l ≡ []
empty_eq {l = []} e = refl
empty_eq {l = x ∷ l} e = absurd (false≢true e)

AllIn-contains :
    (hs old : List String)
    → AllIn hs old
    → (h : String) → contains hs h ≡ true
    → contains old h ≡ true
AllIn-contains [] old a h e = absurd (false≢true e)
AllIn-contains (x ∷ hs) old a h e = elim (Bool-cases (x == h)) [
  | inl y ↦ ground (arith, eq_iff x h, a.0)
  | inr n ↦ AllIn-contains hs old a.1 h (ground arith)
]

contains-AllIn :
    (hs old : List String)
    → ((h : String) → contains hs h ≡ true → contains old h ≡ true)
    → AllIn hs old
contains-AllIn [] old f = tt
contains-AllIn (x ∷ hs) old f =
    (f x (ground (arith, eq_refl x)), contains-AllIn hs old λ h e. f h (ground arith))

-- The old document names no host, or it names every host that the new one does.
abbrev pub IsHostKnown : Reader → Normalized → Normalized → Type 0
IsHostKnown rd old next =
    ((h : String) → has_host rd old.items h ≡ false)
    ⊎ ((h : String) → has_host rd next.items h ≡ true → has_host rd old.items h ≡ true)

known_hosts :
    (rd : Reader) (old next : Normalized) (before : List String)
    → hosts rd old.items [] ≡ before
    → is_empty (if is_empty before then [] else new_hosts before (hosts rd next.items [])) ≡ true
      ↔ IsHostKnown rd old next
known_hosts rd old next [] e =
    (λ _. inl (λ h. sym (contains-hosts rd old.items [] h refl) ∙ rw e refl), λ _. refl)
known_hosts rd old next (x ∷ xs) e = (
  λ q. inr λ h f.
      sym (contains-hosts rd old.items [] h refl)
      ∙ rw e (
          AllIn-contains (hosts rd next.items []) (x ∷ xs)
            (AllIn-none_new (hosts rd next.items []) (x ∷ xs) (empty_eq q)) h
            (contains-hosts rd next.items [] h refl ∙ f)),
  λ k. elim k [
    | inl n ↦ absurd (
        false≢true (
          sym (n x)
          ∙ sym (contains-hosts rd old.items [] x refl)
          ∙ rw e (ground (arith, eq_refl x))))
    | inr f ↦
        rw
          (AllIn-new (hosts rd next.items []) (x ∷ xs) (
            contains-AllIn (hosts rd next.items []) (x ∷ xs) λ h c.
              ap (λ l. contains l h) (sym e)
              ∙ contains-hosts rd old.items [] h refl
              ∙ f h (sym (contains-hosts rd next.items [] h refl) ∙ c)))
          refl
  ],
)

-- Difference reports how many keys of the new document the old one lacks, and how many of the old
-- one the new one lacks; and it asks for no review exactly where the old document has no keys or
-- fewer than a fifth of them are lacking, and the old document names no host or every host of the
-- new one.
pub difference_quiet :
    (rd : Reader) (old next : Normalized)
    → let d = difference rd old next in
      let total = size (entries rd old.items []) in
      Counts d.added (λ k. has_key next.items k && not (has_key old.items k))
      × Counts d.removed (λ k. has_key old.items k && not (has_key next.items k))
      × Counts total (has_key old.items)
      × (d.requires_review ≡ false
          ↔ (((total ≡ 0) ⊎ (5 * d.removed < total)) × IsHostKnown rd old next))
unfolding difference
difference_quiet rd old next =
    let (quiet, loud) = known_hosts rd old next (hosts rd old.items []) refl in
    (
      counted rd next.items old.items,
      counted rd old.items next.items,
      counted_all rd old.items,
      (λ q. (ground arith, quiet (ground arith)), λ (few, k). ground (arith, few, loud k)),
    )
