-- ===== src/Service/Preferences.antt =====
-- The overlays of a client's owner on the items of a set: SavePreference, ListPreferences,
-- DeletePreference and ItemIdentity of internal/service/steward.go, ApplyPreferences of exports.go.
pub mod Order
use shadow_relay.Prelude.{
  String, Bool, true, false, not, ◌&&◌, ◌||◌, Option, none, some, List, [], ◌∷◌, ◌++◌, ◌==◌, keep,
  trim_space, if◌then◌else◌, ◌<>◌,
}
use shadow_relay.Store.Op.{message, when◌run◌or◌, Op, pure, guard, write, ◌>>=◌, ◌>>◌}
use shadow_relay.Store.Rows.{get_row, put_row, list_rows, delete_row}
use shadow_relay.Model.Source.{Item}
use shadow_relay.Model.Publication.{Preference}
use shadow_relay.Model.Database.{Database, source_sets, preferences}
use shadow_relay.Service.Draws.{Draws, audit}

-- `strings.ToLower`, and the first 24 digits of the hash of a text.
pub record Keys : Type 0 where
  pub to_lower : String → String
  pub short_hash : String → String

module _ (keys : Keys) where
  unfoldable pub item_identity : String → String → String → String → String → String
  item_identity protocol entry_id entry_url lang account =
      let id = trim_space entry_id in
      let entry = if id == "" then trim_space entry_url else id in
      keys.to_lower (trim_space protocol)
      <> "|"
      <> entry
      <> "|"
      <> keys.to_lower (trim_space lang)
      <> "|"
      <> trim_space account

  unfoldable pub preference_id : String → String → String
  preference_id set_id item_key = "pref_" <> keys.short_hash (set_id <> "\n" <> item_key)

  unfoldable pub save_preference_tx : Draws → Preference → Op Database Preference
  save_preference_tx w p = do
    s ← get_row source_sets p.set_id
    put_row preferences p.id p
    audit w 0 "preference.save" p.id
    pure p

  unfoldable pub save_preference : Draws → Preference → Op Database Preference
  save_preference w p = do
    guard (not (p.set_id == "" || p.item_key == "")) (message "setId and itemKey required")
    write (
        save_preference_tx w
          (record p { id = preference_id p.set_id p.item_key; updated_at = w.now }))

  -- The last preference with that key, as the map holds it.
  unfoldable pub find_preference : List Preference → String → Option Preference
  find_preference [] key = none
  find_preference (p ∷ ps) key = elim (find_preference ps key) [
    | some q ↦ some q
    | none ↦ if p.item_key == key then some p else none
  ]

  abbrev or_next : Option Preference → Option Preference → Option Preference
  or_next none q = q
  or_next (some p) q = some p

  -- The preference for an item: by its identity, its id or its URL.
  unfoldable pub preference_of : List Preference → String → Item → Option Preference
  preference_of ps protocol x =
      or_next (find_preference ps (item_identity protocol x.id x.url x.language ""))
        (or_next (find_preference ps x.id) (find_preference ps x.url))

  abbrev or_kept : String → String → String
  or_kept s t = if s == "" then t else s

  unfoldable pub overlaid : Preference → Item → Item
  overlaid p x = record x {
    name = or_kept p.name x.name;
    group = or_kept p.group x.group;
    logo = or_kept p.logo x.logo;
    id = or_kept p.tvg_id x.id;
  }

  -- The loop, with the pinned and the other items so far.
  unfoldable pub apply_loop :
      List Preference → String → List Item → List Item → List Item → List Item
  apply_loop ps protocol pinned out [] = pinned ++ out
  apply_loop ps protocol pinned out (x ∷ xs) = elim (preference_of ps protocol x) [
    | none ↦ apply_loop ps protocol pinned (out ++ (x ∷ [])) xs
    | some p ↦ elim (p.paused || p.hidden) [
      | true ↦ apply_loop ps protocol pinned out xs
      | false ↦ elim p.pinned [
        | true ↦ apply_loop ps protocol (pinned ++ (overlaid p x ∷ [])) out xs
        | false ↦ apply_loop ps protocol pinned (out ++ (overlaid p x ∷ [])) xs
      ]
    ]
  ]

  unfoldable pub apply_preferences : List Item → List Preference → String → List Item
  apply_preferences items ps protocol = apply_loop ps protocol [] [] items

-- none where all are asked for
unfoldable pub list_preferences : String → Op Database (List Preference)
list_preferences set_id = do
  all ← list_rows preferences
  pure (if set_id == "" then all else keep (λ p. p.set_id == set_id) all)

unfoldable pub delete_preference : Draws → String → Op Database Unit
delete_preference w id = write (do delete_row preferences id; audit w 0 "preference.delete" id)
