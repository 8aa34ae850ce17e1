-- ===== src/Fetch/Requests.antt =====
-- internal/fetch/fetch.go: what request asks of a request before it is sent, where redirects may
-- lead, and what it takes of an answer.
use shadow_relay.Prelude.{
  ℕ, zero, suc, ◌≤◌, ◌<◌, String, Bool, true, false, not, ◌&&◌, ◌||◌, Option, none, some, List, [],
  ◌∷◌, ◌==◌, eqb, leb, ltb, if◌then◌else◌, length, ◌≡◌, ◌⊎◌, inl, inr, refl, arith, all, ap,
}
use shadow_relay.Security.{Urls, Url, is_safe_url}
use shadow_relay.Security.Headers.{Headers, validate_headers}
use shadow_relay.Fetch.{Policy}
use shadow_relay.Fetch.Proxy.{validate_proxy}
use shadow_relay.Fetch.Addresses.{Addresses, is_allowed}

-- The tests before the request is built; none where it may go out.
unfoldable pub request_error : Urls → List String → String → Policy → Headers → Option String
request_error urls profiles raw p h = elim (validate_proxy profiles p) [
  | some m ↦ some m
  | none ↦ if not (is_safe_url urls raw) then some "unsafe URL" else validate_headers urls h
]

-- The addresses that DialContext tries, of those that the lookup gave: all of them, or none.
unfoldable pub dial_addresses :
    {A : Type 0} → Addresses A → List String → Policy → Option (List A) → List A
dial_addresses net trusted p none = []
dial_addresses net trusted p (some ips) =
    if all (λ a. is_allowed net trusted a p) ips then ips else []

-- CheckRedirect, after `hops` requests of which the first went to `origin`: an error, or whether
-- the headers go along.
unfoldable pub check_redirect : Urls → ℕ → Url → String → Url → String ⊎ Bool
check_redirect urls hops origin raw target =
    if leb 5 hops
    then inl "too many redirects"
    else if not (is_safe_url urls raw)
    then inl "unsafe URL"
    else inr (origin.host == target.host && origin.scheme == target.scheme)

-- An answer, with the bytes of its body.
pub record Response : Type 0 where
  pub status : ℕ
  pub etag : String
  pub last_modified : String
  pub content_type : String
  pub content_encoding : String
  pub body : List ℕ

-- `Result`
pub record Taken : Type 0 where
  pub body : List ℕ
  pub status : ℕ
  pub etag : String
  pub last_modified : String
  pub content_type : String

-- `io.LimitReader`
unfoldable pub limited : ℕ → List ℕ → List ℕ
limited zero xs = []
limited (suc n) [] = []
limited (suc n) (x ∷ xs) = x ∷ limited n xs

abbrev taken_of : Response → List ℕ → Taken
taken_of r body = record {
  body = body;
  status = r.status;
  etag = r.etag;
  last_modified = r.last_modified;
  content_type = r.content_type;
}

-- What request returns for an answer; a partial request asked for the first `limit` bytes.
unfoldable pub take_answer : ℕ → Bool → Response → String ⊎ Taken
take_answer limit partial r =
    let body = limited (if partial then limit else suc limit) r.body in
    if eqb r.status 304
    then inr (taken_of r [])
    else if ltb r.status 200 || leb 300 r.status
    then inl "upstream HTTP"
    else if not (r.content_encoding == "") && not (r.content_encoding == "identity")
    then inl "compressed response is not accepted"
    else if not partial && ltb limit (length body)
    then inl "upstream body too large"
    else if eqb (length body) 0
    then inl "empty upstream body"
    else inr (taken_of r body)

length-limited-le : (n : ℕ) (xs : List ℕ) → length (limited n xs) ≤ n
unfolding limited
length-limited-le zero xs = omega arith
length-limited-le (suc n) [] = omega arith
length-limited-le (suc n) (x ∷ xs) = omega (arith, length-limited-le n xs)

limited_whole : (n : ℕ) (xs : List ℕ) → length (limited (suc n) xs) ≤ n → limited (suc n) xs ≡ xs
unfolding limited
limited_whole n [] h = limited-nil (suc n)
  where
    limited-nil : (m : ℕ) → limited m [] ≡ []
    limited-nil zero = refl
    limited-nil (suc m) = refl
limited_whole zero (x ∷ xs) h = ground (arith, h)
limited_whole (suc n) (x ∷ xs) h = ap (λ ys. x ∷ ys) (limited_whole n xs (omega (arith, h)))

-- where an answer is taken, it is a 304 without a body, or a status of 200 to 299 with a body of
-- at least one and at most as many bytes as the limit, which is the whole body of the answer
-- unless only a part was asked for.
pub take_answer_bounds :
    (limit : ℕ) (partial : Bool) (r : Response) (t : Taken)
    → take_answer limit partial r ≡ inr t
    → (t.status ≡ r.status)
      × (((r.status ≡ 304) × (t.body ≡ []))
          ⊎ ((200 ≤ r.status)
              × (r.status < 300)
              × (0 < length t.body)
              × (length t.body ≤ limit)
              × ((partial ≡ true) ⊎ (t.body ≡ r.body))))
unfolding take_answer
take_answer_bounds limit true r t e = let h = length-limited-le limit r.body in ground (arith, e, h)
take_answer_bounds limit false r t e =
    let whole = limited_whole limit r.body in ground (arith, e, whole)
