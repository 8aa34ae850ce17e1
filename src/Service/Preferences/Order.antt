-- ===== src/Service/Preferences/Order.antt =====
-- The loop of ApplyPreferences against its description: what is hidden goes, what is pinned comes
-- first, and otherwise the order stays.
use mathlib.Core.List.{append_assoc, append-nil}
use shadow_relay.Prelude.{
  String, Bool, true, false, not, ◌&&◌, ◌||◌, none, some, List, [], ◌∷◌, ◌++◌, keep, map, ◌≡◌, refl,
  ◌∙◌, ap, Option-cases, Bool-cases, inl, inr,
}
use shadow_relay.Model.Source.{Item}
use shadow_relay.Model.Publication.{Preference}
use shadow_relay.Service.Preferences.{Keys, preference_of, overlaid, apply_loop, apply_preferences}

module _ (keys : Keys) (ps : List Preference) (protocol : String) where
  unfoldable pub is_shown : Item → Bool
  is_shown x = elim (preference_of keys ps protocol x) [
    | none ↦ true
    | some p ↦ not (p.paused || p.hidden)
  ]

  unfoldable pub is_pinned : Item → Bool
  is_pinned x = elim (preference_of keys ps protocol x) [ none ↦ false | some p ↦ p.pinned ]

  unfoldable pub renamed : Item → Item
  renamed x = elim (preference_of keys ps protocol x) [ none ↦ x | some p ↦ overlaid keys p x ]

  abbrev pub shown_pinned : List Item → List Item
  shown_pinned xs = map renamed (keep (λ x. is_shown x && is_pinned x) xs)

  abbrev pub shown_others : List Item → List Item
  shown_others xs = map renamed (keep (λ x. is_shown x && not (is_pinned x)) xs)

  apply_loop_eq :
      (pinned out xs : List Item)
      → apply_loop keys ps protocol pinned out xs
        ≡ (pinned ++ shown_pinned xs) ++ (out ++ shown_others xs)
  unfolding apply_loop is_shown is_pinned renamed
  apply_loop_eq pinned out [] = rw (append-nil, append-nil) refl
  apply_loop_eq pinned out (x ∷ xs) = elim (Option-cases (preference_of keys ps protocol x)) [
    | inl e ↦
        rw (apply_loop, is_shown, is_pinned, renamed, e)
          (apply_loop_eq pinned (out ++ (x ∷ [])) xs
            ∙ rw (renamed, e)
                (ap (λ l. (pinned ++ shown_pinned xs) ++ l)
                  (append_assoc out (x ∷ []) (shown_others xs))))
    | inr (p, e) ↦ elim (Bool-cases (p.paused || p.hidden)) [
      | inl h ↦
          rw (apply_loop, is_shown, is_pinned, renamed, e) (rw h (apply_loop_eq pinned out xs))
      | inr n ↦ elim (Bool-cases p.pinned) [
        | inl y ↦
            rw (apply_loop, is_shown, is_pinned, renamed, e)
              (rw (n, y)
                (apply_loop_eq (pinned ++ (overlaid keys p x ∷ [])) out xs
                  ∙ rw (renamed, e)
                      (ap (λ l. l ++ (out ++ shown_others xs))
                        (append_assoc pinned (overlaid keys p x ∷ []) (shown_pinned xs)))))
        | inr z ↦
            rw (apply_loop, is_shown, is_pinned, renamed, e)
              (rw (n, z)
                (apply_loop_eq pinned (out ++ (overlaid keys p x ∷ [])) xs
                  ∙ rw (renamed, e)
                      (ap (λ l. (pinned ++ shown_pinned xs) ++ l)
                        (append_assoc out (overlaid keys p x ∷ []) (shown_others xs)))))
      ]
    ]
  ]

  -- the loop of ApplyPreferences gives what its description says: of the items that are neither
  -- hidden nor paused, first the pinned ones and then the others, each in the order in which they
  -- came and with the texts of its preference.
  pub apply_preferences_eq :
      (items : List Item)
      → apply_preferences keys items ps protocol ≡ shown_pinned items ++ shown_others items
  unfolding apply_preferences
  apply_preferences_eq items = apply_loop_eq [] [] items
