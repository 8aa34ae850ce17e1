-- ===== src/Tests/Documents.antt =====
-- The theorems on documents and answers at concrete inputs.
use shadow_relay.Prelude.{
  ◌≡◌, ◌⊎◌, ◌↔◌, ◌≤◌, ◌<◌, refl, true, false, [], ◌∷◌, inr, length, List, none, some, ℕ,
}
use shadow_relay.Security.Documents.{
  Json, text, object, field, no_fields, is_clean, Credential, is_clean-Credential,
}
use shadow_relay.Fetch.Requests.{Response, Taken, limited, take_answer, take_answer_bounds}
use shadow_relay.Adapter.Jsonc.{
  strip_comments, mode_after, emitted, at_end, is_next, after_quote, drop_commas, comma_mode,
  is_dropped, closes, is_blank, jsonc,
}
use shadow_relay.Tests.Intake.{site}

abbrev secret_document : Json
secret_document = object (field "rules" (object (field "token" (text "x") no_fields)) no_fields)

is_clean-Credential_example :
    (is_clean site.urls secret_document ≡ false) ↔ Credential site.urls secret_document
is_clean-Credential_example = is_clean-Credential site.urls secret_document

abbrev answer : Response
answer = record {
  status = 200;
  etag = "e";
  last_modified = "m";
  content_type = "text/plain";
  content_encoding = "";
  body = 1 ∷ 2 ∷ 3 ∷ [];
}

abbrev whole : Taken
whole = record {
  body = 1 ∷ 2 ∷ 3 ∷ [];
  status = 200;
  etag = "e";
  last_modified = "m";
  content_type = "text/plain";
}

taking_succeeds : take_answer 3 false answer ≡ inr whole
unfolding take_answer limited
taking_succeeds = refl

take_answer_bounds_example :
    (whole.status ≡ answer.status)
    × (((answer.status ≡ 304) × (whole.body ≡ []))
        ⊎ ((200 ≤ answer.status)
            × (answer.status < 300)
            × (0 < length whole.body)
            × (length whole.body ≤ 3)
            × ((false ≡ true) ⊎ (whole.body ≡ answer.body))))
take_answer_bounds_example = take_answer_bounds 3 false answer whole taking_succeeds

-- `["//",/**/]//`
abbrev commented : List ℕ
commented = 91 ∷ 34 ∷ 47 ∷ 47 ∷ 34 ∷ 44 ∷ 47 ∷ 42 ∷ 42 ∷ 47 ∷ 93 ∷ 47 ∷ 47 ∷ []

abbrev uncommented : List ℕ
uncommented = 91 ∷ 34 ∷ 47 ∷ 47 ∷ 34 ∷ 44 ∷ 32 ∷ 93 ∷ 10 ∷ []

-- `["//" ]`
trailing_comma : jsonc commented ≡ some (91 ∷ 34 ∷ 47 ∷ 47 ∷ 34 ∷ 32 ∷ 93 ∷ 10 ∷ [])
unfolding jsonc strip_comments mode_after emitted at_end is_next after_quote drop_commas comma_mode
    is_dropped closes is_blank
trailing_comma = refl

-- `/*` has no end.
unterminated : jsonc (47 ∷ 42 ∷ 47 ∷ []) ≡ none
unfolding jsonc strip_comments mode_after emitted at_end is_next
unterminated = refl
