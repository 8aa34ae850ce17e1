-- ===== src/Service/Selection/Order.antt =====
-- The sorting of the members keeps all of them.
use shadow_relay.Prelude.{
  Bool, true, false, if◌then◌else◌, ◌≡◌, inl, inr, refl, arith, suc, length, List, [], ◌∷◌,
}
use shadow_relay.Model.Publication.{Member}
use shadow_relay.Service.Selection.{precedes, insert_member, sort_members}
use shadow_relay.Service.Selection.Eligibility.{Each, Among}

Each-insert :
    (P : Member → Type 0) (m : Member) (ns : List Member)
    → Each P (insert_member m ns)
    → P m × Each P ns
unfolding insert_member
Each-insert P m [] h = h
Each-insert P m (n ∷ ns) h = go (precedes n m) (Each-insert P m ns) h
  where
    go :
        (b : Bool)
        → (Each P (insert_member m ns) → P m × Each P ns)
        → Each P (if b then n ∷ insert_member m ns else m ∷ n ∷ ns)
        → P m × (P n × Each P ns)
    go true rest h = let (p, q) = rest h.1 in (p, (h.0, q))
    go false rest h = h

-- What holds of every sorted member holds of every member.
pub Each-sort : (P : Member → Type 0) (ms : List Member) → Each P (sort_members ms) → Each P ms
unfolding sort_members
Each-sort P [] h = tt
Each-sort P (m ∷ ms) h =
    let (p, rest) = Each-insert P m (sort_members ms) h in (p, Each-sort P ms rest)

Among-insert : (x m : Member) (ns : List Member) → Among x (insert_member m ns) → Among x (m ∷ ns)
unfolding insert_member
Among-insert x m [] h = h
Among-insert x m (n ∷ ns) h = go (precedes n m) (Among-insert x m ns) h
  where
    go :
        (b : Bool)
        → (Among x (insert_member m ns) → Among x (m ∷ ns))
        → Among x (if b then n ∷ insert_member m ns else m ∷ n ∷ ns)
        → Among x (m ∷ n ∷ ns)
    go true rest (inl e) = inr (inl e)
    go true rest (inr h) = elim (rest h) [ inl e ↦ inl e | inr k ↦ inr (inr k) ]
    go false rest h = h

-- The sorting adds no member.
pub Among-sort : (x : Member) (ms : List Member) → Among x (sort_members ms) → Among x ms
unfolding sort_members
Among-sort x [] h = h
Among-sort x (m ∷ ms) h = elim (Among-insert x m (sort_members ms) h) [
  | inl e ↦ inl e
  | inr k ↦ inr (Among-sort x ms k)
]

length-insert : (m : Member) (ns : List Member) → length (insert_member m ns) ≡ suc (length ns)
unfolding insert_member
length-insert m [] = refl
length-insert m (n ∷ ns) = ground (arith, length-insert m ns)

pub length-sort : (ms : List Member) → length (sort_members ms) ≡ length ms
unfolding sort_members
length-sort [] = refl
length-sort (m ∷ ms) = ground (arith, length-insert m (sort_members ms), length-sort ms)
