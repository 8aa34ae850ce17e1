-- ===== src/Service/Subscriptions/Served.antt =====
-- The addresses of an aggregate lead to formats that it has.
use shadow_relay.Prelude.{String, true, List, [], ◌∷◌, ◌<>◌, contains, ◌≡◌}
use shadow_relay.Service.Subscriptions.{Addresses}

module _ (prefix : String) (available : List String) where
  -- The address of a format that is available.
  abbrev pub Serves : String → Type 0
  Serves u = (path : String) × (contains available path ≡ true) × (u ≡ prefix <> path)

  abbrev pub AreServed : List String → Type 0
  AreServed [] = Unit
  AreServed (u ∷ us) = Serves u × AreServed us

  abbrev pub AreReached : List (String × String) → Type 0
  AreReached [] = Unit
  AreReached ((c, u) ∷ m) = Serves u × AreReached m

  abbrev pub Leads : Addresses → Type 0
  Leads a = AreServed a.urls × AreReached a.by_client
