-- ===== src/Service/Overrides.antt =====
-- channelOverrides of internal/service/exports.go: the rules of a set change what the channels of a
-- source are called, and hide some.
use shadow_relay.Prelude.{
  String, Bool, true, false, ◌&&◌, ◌||◌, List, [], ◌∷◌, ◌==◌, if◌then◌else◌, ◌≡◌, refl, Bool-cases,
  inl, inr, keep,
}
use shadow_relay.Model.Source.{Item}
use shadow_relay.Model.Publication.{ChannelRule}

-- Is the rule for the channel, by its URL or the id that it came with?
unfoldable pub is_rule_for : String → Item → ChannelRule → Bool
is_rule_for source_id x r =
    (r.source_id == "" || r.source_id == source_id) && (r.match == x.url || r.match == x.id)

abbrev or_old : String → String → String
or_old s t = if s == "" then t else s

abbrev ruled : ChannelRule → Item → Item
ruled r x = record x {
  name = or_old r.name x.name;
  group = or_old r.group x.group;
  logo = or_old r.logo x.logo;
  id = or_old r.tvg_id x.id;
}

-- The loop over the rules; the tests are on the channel as it came, `original`.
unfoldable pub apply_rules : String → Item → List ChannelRule → Bool → Item → Bool × Item
apply_rules source_id original [] hidden x = (hidden, x)
apply_rules source_id original (r ∷ rs) hidden x = elim (is_rule_for source_id original r) [
  | true ↦ apply_rules source_id original rs r.hide (ruled r x)
  | false ↦ apply_rules source_id original rs hidden x
]

unfoldable pub channel_overrides : List Item → String → List ChannelRule → List Item
channel_overrides [] source_id rules = []
channel_overrides (x ∷ xs) source_id rules =
    let (hidden, y) = apply_rules source_id x rules false x in
    let rest = channel_overrides xs source_id rules in if hidden then rest else y ∷ rest

-- The last text that the rules for a channel give, or the one it has.
unfoldable pub last_text : (ChannelRule → String) → List ChannelRule → String → String
last_text f [] s = s
last_text f (r ∷ rs) s = let t = or_old (f r) s in last_text f rs t

-- Whether the last rule hides the channel.
unfoldable pub last_hide : List ChannelRule → Bool → Bool
last_hide [] b = b
last_hide (r ∷ rs) b = last_hide rs r.hide

-- of the rules that are for a channel, by its URL or the id that it came with, the last one
-- decides whether it is hidden, and for each of its name, group, logo and id the last one that
-- gives a text decides it; its URL stays.
pub apply_rules-last :
    (source_id : String) (original : Item) (rules : List ChannelRule) (hidden : Bool) (x : Item)
    → let mine = keep (is_rule_for source_id original) rules in
      let y = apply_rules source_id original rules hidden x in
      (y.0 ≡ last_hide mine hidden)
      × (y.1.name ≡ last_text (λ r. r.name) mine x.name)
      × (y.1.group ≡ last_text (λ r. r.group) mine x.group)
      × (y.1.logo ≡ last_text (λ r. r.logo) mine x.logo)
      × (y.1.id ≡ last_text (λ r. r.tvg_id) mine x.id)
      × (y.1.url ≡ x.url)
unfolding apply_rules last_text last_hide
apply_rules-last source_id original [] hidden x = (refl, refl, refl, refl, refl, refl)
apply_rules-last source_id original (r ∷ rs) hidden x =
    elim (Bool-cases (is_rule_for source_id original r)) [
      | inl y ↦ rw (apply_rules, y) (apply_rules-last source_id original rs r.hide (ruled r x))
      | inr n ↦ rw (apply_rules, n) (apply_rules-last source_id original rs hidden x)
    ]
