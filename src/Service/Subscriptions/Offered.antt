-- ===== src/Service/Subscriptions/Offered.antt =====
-- The addresses of an aggregate leave out no format that it has.
use shadow_relay.Prelude.{
  eq_refl, String, Bool, true, false, List, [], ◌∷◌, ◌++◌, ◌<>◌, contains, if◌then◌else◌, ◌≡◌, refl,
  Bool-cases, inl, inr, arith,
}
use shadow_relay.Service.Subscriptions.{Addresses, add_address, add_addresses, has_client}

module _ (prefix : String) (available : List String) where
  -- Every format of the list that is available has its address, and its client has one.
  abbrev pub Offers : List (String × String) → Addresses → Type 0
  Offers [] a = Unit
  Offers ((client, path) ∷ fs) a =
      (contains available path ≡ true
        → (contains a.urls (prefix <> path) ≡ true) × (has_client client a.by_client ≡ true))
      × Offers fs a

  -- Nothing of the first is lost in the second.
  pub record Grows (a b : Addresses) : Type 0 where
    pub in_urls : (u : String) → contains a.urls u ≡ true → contains b.urls u ≡ true
    pub by_client : (c : String) → has_client c a.by_client ≡ true → has_client c b.by_client ≡ true

  contains-append_kept :
      (us : List String) (v u : String) → contains us u ≡ true → contains (us ++ v ∷ []) u ≡ true
  contains-append_kept [] v u e = ground arith
  contains-append_kept (x ∷ us) v u e = ground (arith, contains-append_kept us v u)

  contains-append_last : (us : List String) (u : String) → contains (us ++ u ∷ []) u ≡ true
  contains-append_last [] u = rw eq_refl refl
  contains-append_last (x ∷ us) u = ground (arith, contains-append_last us u)

  has_client-if :
      (b : Bool) (m : List (String × String)) (client u c : String)
      → has_client c m ≡ true
      → has_client c (if b then m else (client, u) ∷ m) ≡ true
  unfolding has_client
  has_client-if true m client u c e = e
  has_client-if false m client u c e = ground arith

  has_client-added :
      (m : List (String × String)) (client u : String)
      → has_client client (if has_client client m then m else (client, u) ∷ m) ≡ true
  unfolding has_client
  has_client-added m client u = elim (Bool-cases (has_client client m)) [
    | inl y ↦ rw (y) y
    | inr n ↦ rw (n, eq_refl) refl
  ]

  pub add_address-Grows :
      (a : Addresses) (client path : String) → Grows a (add_address prefix available a client path)
  unfolding add_address
  add_address-Grows a client path = elim (Bool-cases (contains available path)) [
    | inr n ↦ rw (n) (record { in_urls = λ u e. e; by_client = λ c e. e })
    | inl y ↦ elim (Bool-cases (contains a.urls (prefix <> path))) [
      | inl old ↦
          rw (y, old)
            (record {
              in_urls = λ u e. e;
              by_client = λ c e. has_client-if _ a.by_client client (prefix <> path) c e;
            })
      | inr new ↦
          rw (y, new)
            (record {
              in_urls = λ u e. contains-append_kept a.urls (prefix <> path) u e;
              by_client = λ c e. has_client-if _ a.by_client client (prefix <> path) c e;
            })
    ]
  ]

  add_address-offered :
      (a : Addresses) (client path : String)
      → contains available path ≡ true
      → let b = add_address prefix available a client path in
        (contains b.urls (prefix <> path) ≡ true) × (has_client client b.by_client ≡ true)
  unfolding add_address
  add_address-offered a client path y = elim (Bool-cases (contains a.urls (prefix <> path))) [
    | inl old ↦ rw (y, old) (old, has_client-added a.by_client client (prefix <> path))
    | inr new ↦
        rw (y, new)
          (
            contains-append_last a.urls (prefix <> path),
            has_client-added a.by_client client (prefix <> path),
          )
  ]

  add_addresses-Grows :
      (a : Addresses) (fs : List (String × String)) → Grows a (add_addresses prefix available a fs)
  unfolding add_addresses
  add_addresses-Grows a [] = record { in_urls = λ u e. e; by_client = λ c e. e }
  add_addresses-Grows a ((client, path) ∷ fs) =
      let g = add_address-Grows a client path in
      let h = add_addresses-Grows (add_address prefix available a client path) fs in
      record {
        in_urls = λ u e. h.in_urls u (g.in_urls u e);
        by_client = λ c e. h.by_client c (g.by_client c e);
      }

  pub Offers-Grows :
      (fs : List (String × String)) (a b : Addresses) → Grows a b → Offers fs a → Offers fs b
  Offers-Grows [] a b g o = tt
  Offers-Grows ((client, path) ∷ fs) a b g (o, os) =
      (λ e. let (x, y) = o e in (g.in_urls _ x, g.by_client _ y), Offers-Grows fs a b g os)

  pub add_addresses-Offers :
      (a : Addresses) (fs : List (String × String))
      → Offers fs (add_addresses prefix available a fs)
  unfolding add_addresses
  add_addresses-Offers a [] = tt
  add_addresses-Offers a ((client, path) ∷ fs) =
      let b = add_address prefix available a client path in
      let g = add_addresses-Grows b fs in
      (
        λ e. let (x, y) = add_address-offered a client path e in (g.in_urls _ x, g.by_client _ y),
        add_addresses-Offers b fs,
      )
