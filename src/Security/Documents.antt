-- ===== src/Security/Documents.antt =====
-- ValidateDocument of internal/security/security.go: no document with credentials in it is kept.
use Prim.Native.Char.{code}
use shadow_relay.Prelude.{
  eqb, String, Bool, true, false, not, ◌&&◌, ◌||◌, none, some, ◌==◌, ◌≡◌, ◌↔◌, refl, starts_with,
  trim_space, if◌then◌else◌, Bool-cases, inl, inr, arith,
}
use shadow_relay.Security.{Urls, is_sensitive_key}

-- What encoding/json makes of a document. Numbers and Booleans are not looked at. An object is a
-- list of its pairs, in the order in which the loop meets them.
mutual
  pub data Json : Type 0 where
    null : Json
    plain : Json
    text : String → Json
    array : JsonList → Json
    object : JsonFields → Json

  pub data JsonList : Type 0 where
    no_elements : JsonList
    element : Json → JsonList → JsonList

  pub data JsonFields : Type 0 where
    no_fields : JsonFields
    field : String → Json → JsonFields → JsonFields

-- `v != nil && v != ""`
unfoldable pub is_filled : Json → Bool
is_filled null = false
is_filled (text s) = not (s == "")
is_filled _ = true

-- `strings.Split(x, ",")[0]`
unfoldable pub before_comma : String → String
before_comma String.[] = ""
before_comma (String.◌∷◌ c s) =
    let rest = before_comma s in if eqb (code c) 44 then "" else String.◌∷◌ c rest

-- `strings.Split(x, "##")[0]`
unfoldable pub before_hashes : String → String
before_hashes String.[] = ""
before_hashes (String.◌∷◌ c s) =
    let rest = before_hashes s in
    if starts_with (String.◌∷◌ c s) "##" then "" else String.◌∷◌ c rest

module _ (urls : Urls) where
  -- An absolute URL with userinfo at the beginning of a text.
  unfoldable pub has_userinfo : String → Bool
  has_userinfo s =
      (starts_with s "http://" || starts_with s "https://")
      && elim (urls.parse (trim_space (before_hashes (before_comma s)))) [
        | none ↦ false
        | some u ↦ u.has_user
      ]

  -- `walk(v) == nil`
  unfoldable mutual
    pub is_clean : Json → Bool
    is_clean null = true
    is_clean plain = true
    is_clean (text s) = not (has_userinfo s)
    is_clean (array xs) = are_clean xs
    is_clean (object fs) = are_clean_fields fs

    pub are_clean : JsonList → Bool
    are_clean no_elements = true
    are_clean (element v xs) = is_clean v && are_clean xs

    pub are_clean_fields : JsonFields → Bool
    are_clean_fields no_fields = true
    are_clean_fields (field k v fs) =
        not (is_sensitive_key urls k && is_filled v) && is_clean v && are_clean_fields fs

  -- A credential at some depth of a document: a value under a sensitive name, or a URL with
  -- userinfo.
  mutual
    pub data Credential : Json → Type 0 where
      userinfo : (s : String) → has_userinfo s ≡ true → Credential (text s)
      in_array : (xs : JsonList) → CredentialIn xs → Credential (array xs)
      in_object : (fs : JsonFields) → CredentialUnder fs → Credential (object fs)

    pub data CredentialIn : JsonList → Type 0 where
      first : (v : Json) (xs : JsonList) → Credential v → CredentialIn (element v xs)
      later : (v : Json) (xs : JsonList) → CredentialIn xs → CredentialIn (element v xs)

    pub data CredentialUnder : JsonFields → Type 0 where
      secret :
          (k : String) (v : Json) (fs : JsonFields)
          → is_sensitive_key urls k ≡ true
          → is_filled v ≡ true
          → CredentialUnder (field k v fs)
      inside :
          (k : String) (v : Json) (fs : JsonFields) → Credential v → CredentialUnder (field k v fs)
      beyond :
          (k : String) (v : Json) (fs : JsonFields)
          → CredentialUnder fs
          → CredentialUnder (field k v fs)

  mutual
    unfolding is_clean are_clean are_clean_fields

    found : (v : Json) → is_clean v ≡ false → Credential v
    found null e = ground (arith, e)
    found plain e = ground (arith, e)
    found (text s) e = userinfo s (ground (arith, e))
    found (array xs) e = in_array xs (found_in xs e)
    found (object fs) e = in_object fs (found_under fs e)

    found_in : (xs : JsonList) → are_clean xs ≡ false → CredentialIn xs
    found_in no_elements e = ground (arith, e)
    found_in (element v xs) e = elim (Bool-cases (is_clean v)) [
      | inr n ↦ first v xs (found v n)
      | inl y ↦ later v xs (found_in xs (ground (arith, e, y)))
    ]

    found_under : (fs : JsonFields) → are_clean_fields fs ≡ false → CredentialUnder fs
    found_under no_fields e = ground (arith, e)
    found_under (field k v fs) e = elim (Bool-cases (is_sensitive_key urls k && is_filled v)) [
      | inl s ↦ secret k v fs (ground (arith, s)) (ground (arith, s))
      | inr t ↦ elim (Bool-cases (is_clean v)) [
        | inr n ↦ inside k v fs (found v n)
        | inl y ↦ beyond k v fs (found_under fs (ground (arith, e, y, t)))
      ]
    ]

  mutual
    unfolding is_clean are_clean are_clean_fields

    refused : (v : Json) → Credential v → is_clean v ≡ false
    refused _ (userinfo s e) = rw e refl
    refused _ (in_array xs c) = refused_in xs c
    refused _ (in_object fs c) = refused_under fs c

    refused_in : (xs : JsonList) → CredentialIn xs → are_clean xs ≡ false
    refused_in _ (first v xs c) = ground (arith, refused v c)
    refused_in _ (later v xs c) = ground (arith, refused_in xs c)

    refused_under : (fs : JsonFields) → CredentialUnder fs → are_clean_fields fs ≡ false
    refused_under _ (secret k v fs s f) = ground (arith, s, f)
    refused_under _ (inside k v fs c) = ground (arith, refused v c)
    refused_under _ (beyond k v fs c) = ground (arith, refused_under fs c)

  -- a document is refused exactly where it has a credential at some depth: a value that is
  -- neither null nor empty under a sensitive name, or a text that begins with an absolute URL
  -- with userinfo.
  pub is_clean-Credential : (v : Json) → (is_clean v ≡ false) ↔ Credential v
  is_clean-Credential v = (found v, refused v)
