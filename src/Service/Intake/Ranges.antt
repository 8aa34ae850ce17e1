-- ===== src/Service/Intake/Ranges.antt =====
-- What `defaults` promises of the request that it lets pass.
use Prim.Native.String.len
use text.Mathlib.TextPositions.{len_utf8-pos}
use shadow_relay.Prelude.{
  ℕ, String, true, false, ◌&&◌, Option, none, some, refl, ◌≡◌, ◌∙◌, ◌⊎◌, inl, inr, ◌<◌, ◌≤◌, arith,
  ◌==◌, eq_iff, byte_len, contains, Bool-cases, trim_space-trim_space,
}
use shadow_relay.Prelude.Int.{ℤ, pos, negsuc, ltz}
use shadow_relay.Store.Op.{ok}
use shadow_relay.Store.Op.Ensures.{
  Ensures, Ensures-ok, Ensures-bind, Ensures-guard, Ensures-weaken, Ensures-result,
}
use shadow_relay.Security.{Urls, is_safe_url}
use shadow_relay.Service.Intake.{
  SourceInput, filled, check_input, defaults, networks, trusts, update_policies, or_else,
  or_minutes, refuse,
}

-- A name of 1 to 160 bytes, words that are known, the local network only for a trusted source, an
-- interval of 5 minutes to 30 days, a URL that may be fetched, and probes that are off or at least
-- 15 minutes apart.
pub record InRange (urls : Urls) (i : SourceInput) : Type 0 where
  pub name : (0 < byte_len i.name) × (byte_len i.name ≤ 160)
  pub network : contains networks i.network ≡ true
  pub trust : contains trusts i.trust ≡ true
  pub lan : i.network ≡ "trusted-lan" → i.trust ≡ "trusted"
  pub policy : contains update_policies i.update_policy ≡ true
  pub interval : (n : ℕ) × (i.interval_minutes ≡ pos n) × (5 ≤ n) × (n ≤ 43200)
  pub url : (i.url ≡ "") ⊎ (is_safe_url urls i.url ≡ true)
  pub probes :
      (i.probe_interval_minutes ≡ pos 0)
      ⊎ ((n : ℕ) × (i.probe_interval_minutes ≡ pos n) × (15 ≤ n) × (n ≤ 43200))

byte_len-pos : (s : String) → (s == "") ≡ false → 0 < byte_len s
byte_len-pos String.[] e = ground arith
byte_len-pos (String.◌∷◌ c s) e = omega (arith, len.cons c s, (len_utf8-pos c).1)

between :
    (z : ℤ) (a b : ℕ)
    → ltz z (pos a) ≡ false
    → ltz (pos b) z ≡ false
    → (n : ℕ) × (z ≡ pos n) × (a ≤ n) × (n ≤ b)
between (pos n) a b e f = (n, refl, ground arith, ground arith)
between (negsuc n) a b e f = ground arith

probes_between :
    (z : ℤ)
    → ltz z (pos 0) ≡ false
    → ltz (pos 43200) z ≡ false
    → (ltz (pos 0) z && ltz z (pos 15)) ≡ false
    → (z ≡ pos 0) ⊎ ((n : ℕ) × (z ≡ pos n) × (15 ≤ n) × (n ≤ 43200))
probes_between (pos ℕ.zero) e f g = inl refl
probes_between (pos (ℕ.suc n)) e f g = inr (ℕ.suc n, refl, ground arith, ground arith)
probes_between (negsuc n) e f g = ground arith

module _ {S : Type 0} (urls : Urls) where
  check_input-InRange :
      (i : SourceInput) (s : S) → Ensures (λ _ t. (t ≡ s) × InRange urls i) (check_input urls i s)
  unfolding check_input
  check_input-InRange i s = Ensures-guard _ _ _ s λ a. Ensures-guard _ _ _ s λ b.
      Ensures-guard _ _ _ s λ c. Ensures-guard _ _ _ s λ e. Ensures-guard _ _ _ s λ f.
        Ensures-guard _ _ _ s λ g. Ensures-guard _ _ _ s λ _. Ensures-guard _ _ _ s λ _.
          Ensures-weaken (refuse-Reads _ s) λ _ t same. (
            same,
            record {
              name = (byte_len-pos i.name (ground arith), ground arith);
              network = ground arith;
              trust = ground arith;
              lan = λ x. ground (arith, eq_iff i.network "trusted-lan", eq_iff i.trust "trusted");
              policy = ground arith;
              interval = between i.interval_minutes 5 43200 (ground arith) (ground arith);
              url = elim (Bool-cases (i.url == "")) [
                | inl y ↦ inl ((eq_iff i.url "").0 y)
                | inr n ↦ inr (ground arith)
              ];
              probes =
                  probes_between i.probe_interval_minutes (ground arith) (ground arith)
                    (ground arith);
            },
          )
    where
      refuse-Reads : (m : Option String) (s : S) → Ensures (λ _ t. t ≡ s) (refuse m s)
      refuse-Reads none s = Ensures-ok _ _ refl
      refuse-Reads (some m) s = record { post = tt }

  pub defaults-Ensures :
      (i : SourceInput) (s : S)
      → Ensures (λ out t. (out ≡ filled i) × (t ≡ s) × InRange urls out) (defaults urls i s)
  unfolding defaults
  defaults-Ensures i s =
      Ensures-bind _ _ s (check_input-InRange (filled i) s) λ _ t h. Ensures-ok _ _ (refl, h.0, h.1)

  -- a request that defaults lets pass has a name of 1 to 160 bytes, a known network, trust and
  -- update policy, the local network only with full trust, an interval of 5 to 43200 minutes, no
  -- URL or one that SafeURL takes, and probes that are off or 15 to 43200 minutes apart; the
  -- database is as before.
  pub defaults-InRange :
      (i out : SourceInput) (s t : S) → defaults urls i s ≡ ok out t → (t ≡ s) × InRange urls out
  defaults-InRange i out s t e =
      let (_, same, h) = Ensures-result (defaults urls i s) (defaults-Ensures i s) e in (same, h)

filled-filled : (i : SourceInput) → filled (filled i) ≡ filled i
unfolding filled
filled-filled i =
    rw
      (
        trim_space-trim_space i.name,
        or_else_twice i.network "internet",
        or_else_twice i.trust "reviewed",
        or_else_twice i.update_policy "review",
        or_minutes_twice i.interval_minutes (pos 360),
      )
      refl
  where
    or_else_twice : (s t : String) → or_else (or_else s t) t ≡ or_else s t
    or_else_twice s t = ground arith

    or_minutes_twice : (n m : ℤ) → or_minutes (or_minutes n m) m ≡ or_minutes n m
    or_minutes_twice n m = ground arith

-- a request that defaults has filled in and let pass is let pass again unchanged, as Import and
-- Preview both call it.
defaults-defaults :
    {S : Type 0} (urls : Urls) (i out : SourceInput) (s t : S)
    → defaults urls i s ≡ ok out t
    → defaults urls out t ≡ ok out t
unfolding defaults
defaults-defaults urls i out s t e =
    let (a, b, _) = Ensures-result (defaults urls i s) (defaults-Ensures urls i s) e in
    rw (a, b, filled-filled i) (e ∙ rw (a, b) refl)
