-- ===== src/Fetch/Addresses.antt =====
-- Allowed of internal/fetch/fetch.go: which addresses may be dialled for a policy. The classes of
-- addresses are those of net/netip.
use shadow_relay.Prelude.{
  String, Bool, true, false, not, ◌&&◌, ◌||◌, List, [], ◌∷◌, ◌==◌, any, if◌then◌else◌, ◌≡◌, arith,
  eq_iff, ◌⊎◌,
}
use shadow_relay.Fetch.{Policy}

-- `netip.Addr` and its tests; `within p a` is `netip.MustParsePrefix(p).Contains(a)`.
pub record Addresses (Address : Type 0) : Type 0 where
  pub unmap : Address → Address
  pub within : String → Address → Bool
  pub is_loopback : Address → Bool
  pub is_unspecified : Address → Bool
  pub is_multicast : Address → Bool
  pub is_link_local_unicast : Address → Bool
  pub is_link_local_multicast : Address → Bool
  pub is_private : Address → Bool
  pub is_global_unicast : Address → Bool

-- The networks that are reserved for documentation, tests and translation.
abbrev pub reserved : List String
reserved =
    "0.0.0.0/8" ∷ "192.0.0.0/24" ∷ "192.0.2.0/24" ∷ "198.18.0.0/15" ∷ "198.51.100.0/24"
    ∷ "203.0.113.0/24" ∷ "240.0.0.0/4" ∷ "64:ff9b::/96" ∷ "64:ff9b:1::/48" ∷ "100::/64"
    ∷ "2001::/23" ∷ "2002::/16" ∷ []

module _ {A : Type 0} (net : Addresses A) where
  unfoldable pub is_reserved : A → Bool
  is_reserved ip = any (λ p. net.within p ip) reserved

  -- Loopback, unspecified, multicast and link-local addresses.
  unfoldable pub is_special : A → Bool
  is_special ip =
      net.is_loopback ip
      || net.is_unspecified ip
      || net.is_multicast ip
      || net.is_link_local_unicast ip
      || net.is_link_local_multicast ip

  unfoldable pub is_local : A → Bool
  is_local ip = net.is_private ip || not (net.is_global_unicast ip) || net.within "100.64.0.0/10" ip

module _ {A : Type 0} (net : Addresses A) (trusted : List String) where
  -- Is the address one of a network that the operator trusts?
  unfoldable pub is_trusted : A → Bool
  is_trusted ip = any (λ p. net.within p ip) trusted

  unfoldable pub is_allowed : A → Policy → Bool
  is_allowed addr p =
      let ip = net.unmap addr in
      if is_reserved net ip
      then false
      else if is_special net ip
      then false
      else if is_local net ip
      then not (not (p.network == "trusted-lan") || not (p.trust == "trusted")) && is_trusted ip
      else if p.network == "trusted-lan"
      then is_trusted ip
      else p.network == "internet" || p.network == ""

  -- where an address is allowed for a policy, it is neither reserved nor loopback, unspecified,
  -- multicast or link-local; a local address is allowed only to a trusted source of the trusted
  -- local network; and a policy that is neither for the internet nor empty reaches only the
  -- networks that the operator trusts.
  pub allowed_only :
      (addr : A) (p : Policy)
      → is_allowed addr p ≡ true
      → let ip = net.unmap addr in
        (is_reserved net ip ≡ false)
        × (is_special net ip ≡ false)
        × ((is_local net ip ≡ false) ⊎ ((p.trust ≡ "trusted") × (p.network ≡ "trusted-lan")))
        × ((p.network ≡ "internet") ⊎ (p.network ≡ "") ⊎ (is_trusted ip ≡ true))
  unfolding is_allowed
  allowed_only addr p e =
      let ip = net.unmap addr in
      (
        ground arith,
        ground arith,
        ground (arith, eq_iff p.network "trusted-lan", eq_iff p.trust "trusted"),
        ground (arith, eq_iff p.network "internet", eq_iff p.network ""),
      )
