-- ===== src/Tests/Gates.antt =====
-- The theorems on outbound requests at concrete inputs.
use shadow_relay.Prelude.{ℕ, ◌≡◌, ◌⊎◌, ◌&&◌, refl, true, false, [], ◌∷◌, ltb, ◌==◌, ◌+◌}
use shadow_relay.Fetch.{Policy}
use shadow_relay.Fetch.Addresses.{
  Addresses, is_allowed, is_reserved, is_special, is_local, is_trusted, allowed_only,
}
use shadow_relay.Fetch.Gate.{
  Host, new_host, is_open_circuit, admitted, entered, settled, noted, unreachable, after_replies,
  failed_thrice, last_time, open_circuit_iff,
}

-- Addresses are numbers: 10 is private and trusted, the others are global.
abbrev pub net : Addresses ℕ
net = record {
  unmap = λ a. a;
  within = λ p a. p == "10.0.0.0/8" && ltb a 11;
  is_loopback = λ a. false;
  is_unspecified = λ a. false;
  is_multicast = λ a. false;
  is_link_local_unicast = λ a. false;
  is_link_local_multicast = λ a. false;
  is_private = λ a. ltb a 11;
  is_global_unicast = λ a. true;
}

abbrev lan : Policy
lan = record { network = "trusted-lan"; trust = "trusted"; proxy_id = "" }

lan_allowed : is_allowed net ("10.0.0.0/8" ∷ []) 10 lan ≡ true
unfolding is_allowed is_reserved is_special is_local is_trusted
lan_allowed = refl

allowed_only_example :
    (is_reserved net 10 ≡ false)
    × (is_special net 10 ≡ false)
    × ((is_local net 10 ≡ false) ⊎ ((lan.trust ≡ "trusted") × (lan.network ≡ "trusted-lan")))
    × ((lan.network ≡ "internet")
        ⊎ (lan.network ≡ "")
        ⊎ (is_trusted net ("10.0.0.0/8" ∷ []) 10 ≡ true))
allowed_only_example = allowed_only net ("10.0.0.0/8" ∷ []) 10 lan lan_allowed

-- One request that is admitted, gets a slot and finds no server.
abbrev asked : Host
asked = entered (admitted new_host)

abbrev failed_once : Host
failed_once = settled unreachable (noted 7 unreachable asked)

open_circuit_iff_example :
    is_open_circuit 20 (after_replies ((9, unreachable) ∷ (8, unreachable) ∷ (7, unreachable) ∷ []))
    ≡ (failed_thrice ((9, unreachable) ∷ (8, unreachable) ∷ (7, unreachable) ∷ [])
        && ltb 20 (last_time ((9, unreachable) ∷ (8, unreachable) ∷ (7, unreachable) ∷ []) + 60))
open_circuit_iff_example =
    open_circuit_iff ((9, unreachable) ∷ (8, unreachable) ∷ (7, unreachable) ∷ []) 20
