-- ===== src/Auth/Access.antt =====
-- Which requests reach the API, and as whom.
use freysa_spark_hackathon.Common.{
  ◌≡◌, refl, ◌↔◌, ◌⊎◌, inl, inr, arith, true, false, Option, none, some, ◌++◌, String, Result, ok,
  err, Text, truthy, Bool-cases,
}
use freysa_spark_hackathon.Auth.{
  Jose, JwtService, Request, passes, bearer, subscription, until_space, second_word, verify_token,
  answered, authenticate_header, is_open, has_subscription, pre_handler,
}
use freysa_spark_hackathon.Auth.Search.{
  starts_with, starts_with→append, starts_with-append, includes-append,
}
use freysa_spark_hackathon.Auth.Keys.{IsKeyed, Verified, verify_token-accepts}

-- The requests that no token is asked of.
abbrev pub Exempt : Request → Type 0
Exempt request =
    (is_open request.url ≡ true)
    ⊎ (truthy request.websocket_protocol ≡ true)
    ⊎ (has_subscription request.query ≡ true)

abbrev pub NotExempt : Request → Type 0
NotExempt request =
    (is_open request.url ≡ false)
    × (truthy request.websocket_protocol ≡ false)
    × (has_subscription request.query ≡ false)

-- An authorization header that reads `Bearer`, a space, and a text that starts with the token.
abbrev pub Bears : Option Text → Text → Type 0
Bears header token = (rest : Text) × (header ≡ some (bearer ++ rest)) × (token ≡ until_space rest)

second_word-bearer : (rest : Text) → second_word (bearer ++ rest) ≡ some (until_space rest)
unfolding second_word
second_word-bearer rest = refl

module _ {Key : Type 0} (jose : Jose Key) where
  -- The requests that go on, with or without a user id.
  abbrev pub GoesOn : JwtService Key → Request → Option String → Type 0
  GoesOn service request none = Exempt request
  GoesOn service request (some user) =
      NotExempt request
      × (token : Text) × Bears request.authorization token
      × Verified jose service token user

  answered_iff :
      (r : Result String × JwtService Key) (user : Option String)
      → ((answered jose r).0 ≡ passes user)
        ↔ ((name : String) × (user ≡ some name) × (r.0 ≡ ok name))
  answered_iff (ok u, s) user = (λ h. (u, cc, refl), λ (n, e, g). cc)
  answered_iff (err e, s) user = (λ h. cc, λ (n, e, g). cc)

  -- The header of a request that is not exempt.
  abbrev pub Names : JwtService Key → Option Text → Option String → Type 0
  Names service header user =
      (name : String) × (user ≡ some name)
      × (token : Text) × Bears header token
      × Verified jose service token name

  with_token-Names :
      (service : JwtService Key) (rest : Text) (user : Option String)
      → IsKeyed jose service
      → ((authenticate_header jose (some (bearer ++ rest)) service).0 ≡ passes user)
        ↔ Names service (some (bearer ++ rest)) user
  unfolding authenticate_header
  with_token-Names service rest user keyed =
      let token = until_space rest in
      let reads = answered_iff (verify_token jose token service) user in
      rw (starts_with-append bearer rest, second_word-bearer rest)
        (
          λ h.
              let (name, e, g) = reads.0 h in
              (
                name,
                e,
                token,
                (rest, refl, refl),
                (verify_token-accepts jose service token name keyed).0 g,
              ),
          λ (name, e, t, (r, b, u), v).
              let same_rest : r ≡ rest = cc in
              let same : t ≡ until_space rest = cc in
              reads.1
                (name, e, (verify_token-accepts jose service token name keyed).1 (rw same at v)),
        )

  authenticate_header-Names :
      (service : JwtService Key) (header : Option Text) (user : Option String)
      → IsKeyed jose service
      → ((authenticate_header jose header service).0 ≡ passes user) ↔ Names service header user
  unfolding authenticate_header
  authenticate_header-Names service none user keyed = (λ h. cc, λ (n, e, t, (r, b, u), v). cc)
  authenticate_header-Names service (some header) user keyed =
      elim (Bool-cases (starts_with bearer header)) [
        | inl h ↦
            let (rest, e) = starts_with→append bearer header h in
            rw e (with_token-Names service rest user keyed)
        | inr h ↦ rw h (
          λ g. cc,
          λ (n, e, t, (r, b, u), v).
              let same : header ≡ bearer ++ r = cc in
              let found : starts_with bearer header ≡ true =
                rw same (starts_with-append bearer r) in
              cc,
        )
      ]

  not_both : (request : Request) → Exempt request → NotExempt request → ⊥
  not_both request (inl h) (a, b, c) = cc
  not_both request (inr (inl h)) (a, b, c) = cc
  not_both request (inr (inr h)) (a, b, c) = cc

  passes-GoesOn :
      (service : JwtService Key) (request : Request) (user : Option String)
      → Exempt request
      → (passes none ≡ passes user) ↔ GoesOn service request user
  passes-GoesOn service request none x = (λ h. x, λ g. refl)
  passes-GoesOn service request (some u) x =
      (λ h. cc, λ (n, t, b, v). absurd (not_both request x n))

  Names-GoesOn :
      (service : JwtService Key) (request : Request) (user : Option String)
      → NotExempt request
      → Names service request.authorization user ↔ GoesOn service request user
  Names-GoesOn service request none n = (λ (u, e, t, b, v). cc, λ x. absurd (not_both request x n))
  Names-GoesOn service request (some u) n = (
    λ (v, e, t, b, w). let same : v ≡ u = cc in (n, t, b, rw same at w),
    λ (m, t, b, w). (u, refl, t, b, w),
  )

  -- Where a key that the service keeps is the one its PEM stands for: a request goes on without a
  -- user id exactly when it is exempt, and with a user id exactly when it is not exempt, its header
  -- reads `Bearer` and a token, the token verifies under the service's key, issuer and audience, and
  -- its subject is that id, which is not empty.
  pub pre_handler-GoesOn :
      (service : JwtService Key) (request : Request) (user : Option String)
      → IsKeyed jose service
      → ((pre_handler jose request service).0 ≡ passes user) ↔ GoesOn service request user
  unfolding pre_handler
  pre_handler-GoesOn service request user keyed = elim (Bool-cases (is_open request.url)) [
    | inl a ↦ rw a (passes-GoesOn service request user (inl a))
    | inr a ↦ elim (Bool-cases (truthy request.websocket_protocol)) [
      | inl b ↦ rw (a, b) (passes-GoesOn service request user (inr (inl b)))
      | inr b ↦ elim (Bool-cases (has_subscription request.query)) [
        | inl c ↦ rw (a, b, c) (passes-GoesOn service request user (inr (inr c)))
        | inr c ↦
            let header = authenticate_header-Names service request.authorization user keyed in
            let names = Names-GoesOn service request user (a, b, c) in
            rw (a, b, c) (λ h. names.0 (header.0 h), λ g. header.1 (names.1 g))
      ]
    ]
  ]

-- A request whose query has the word `subscription` anywhere in it goes on without a token, whatever
-- the rest of the request.
pub pre_handler_subscription :
    {Key : Type 0} (jose : Jose Key) (service : JwtService Key) (request : Request) (a b : Text)
    → request.query ≡ some (a ++ (subscription ++ b))
    → pre_handler jose request service ≡ (passes none, service)
unfolding pre_handler
pre_handler_subscription jose service request a b e =
    let found : has_subscription request.query ≡ true = rw e (includes-append subscription a b) in
    ground (arith, found)
