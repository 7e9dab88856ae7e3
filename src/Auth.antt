-- ===== src/Auth.antt =====
-- Who may call the chat API: common/middlewares/jwt.ts, common/middlewares/auth.ts and the
-- preHandler hook of chat/plugin.ts, all under agent/src. Texts that are searched are lists of
-- UTF-16 code units. The library jose is a parameter. A request's body is taken for an object whose
-- `query` is a text or absent.
pub mod Search
pub mod Access
pub mod Keys
mod Examples
use text.Mathlib.Text.{◌==◌ as str_eq}
use freysa_spark_hackathon.Common.{
  ℕ, Bool, true, false, ◌||◌, Option, none, some, List, [], ◌∷◌, String, Result, ok, err, Run, pure,
  throw, lift, on_error, ◌>>=◌, ◌==◌, if◌then◌else◌, is_truthy, Text, truthy,
}
use freysa_spark_hackathon.Auth.Search.{starts_with, includes}

-- importSPKI with RS256, and jwtVerify: the subject of the verified payload.
pub record Jose (Key : Type 0) : Type 0 where
  pub import_spki : String → Result Key
  pub jwt_verify : Text → Key → String → String → Result (Option String)

pub record JwtService (Key : Type 0) : Type 0 where
  pub public_key : Option Key
  pub public_key_pem : String
  pub issuer : String
  pub audience : String

-- The constructor.
unfoldable pub new_jwt_service : {Key : Type 0} → String → String → String → Result (JwtService Key)
new_jwt_service pem issuer audience =
    if is_truthy pem
    then ok
        (record { public_key = none; public_key_pem = pem; issuer = issuer; audience = audience })
    else err "publicKeyPEM must be provided"

pub record Request : Type 0 where
  pub url : String
  pub websocket_protocol : Option Text
  pub authorization : Option Text
  pub query : Option Text

-- What becomes of a request: the handler runs with a user id or without one, or a status and an
-- error are sent.
pub data Outcome : Type 0 where
  passes : Option String → Outcome
  replies : ℕ → String → Outcome

abbrev pub bearer : Text
bearer = 66 ∷ 101 ∷ 97 ∷ 114 ∷ 101 ∷ 114 ∷ 32 ∷ []

abbrev pub subscription : Text
subscription = 115 ∷ 117 ∷ 98 ∷ 115 ∷ 99 ∷ 114 ∷ 105 ∷ 112 ∷ 116 ∷ 105 ∷ 111 ∷ 110 ∷ []

-- `header.split(" ")[1]`: what stands between the first space and the next.
unfoldable pub until_space : Text → Text
until_space [] = []
until_space (c ∷ s) = let rest = until_space s in if c == 32 then [] else c ∷ rest

unfoldable pub second_word : Text → Option Text
second_word [] = none
second_word (c ∷ s) = let rest = second_word s in if c == 32 then some (until_space s) else rest

unfoldable pub subject : Option String → Result String
subject none = err "No user ID in token"
subject (some user) = if is_truthy user then ok user else err "No user ID in token"

unfoldable pub is_open : String → Bool
is_open url = str_eq url "/health" || str_eq url "/graphiql"

abbrev pub has_subscription : Option Text → Bool
has_subscription none = false
has_subscription (some query) = includes subscription query

unfoldable pub verified : Result (Option String) → Result String
verified (err e) = err e
verified (ok sub) = subject sub

module _ {Key : Type 0} (jose : Jose Key) where
  abbrev pub keep_key : Result Key → Run (JwtService Key) Key
  keep_key (err e) service = (err e, service)
  keep_key (ok key) service = (ok key, record service { public_key = some key })

  abbrev pub key_of : Option Key → Run (JwtService Key) Key
  key_of (some key) service = (ok key, service)
  key_of none service = keep_key (jose.import_spki service.public_key_pem) service

  unfoldable pub get_public_key : Run (JwtService Key) Key
  get_public_key service = key_of service.public_key service

  abbrev pub checked_subject : Text → Key → Run (JwtService Key) String
  checked_subject token key service =
      (verified (jose.jwt_verify token key service.issuer service.audience), service)

  -- The message of the error that is thrown is not kept: its only caller drops it.
  unfoldable pub verify_token : Text → Run (JwtService Key) String
  verify_token token service =
      on_error (λ _. throw "Token verification failed")
        ((get_public_key >>= checked_subject token) service)

  abbrev pub answered : Result String × JwtService Key → Outcome × JwtService Key
  answered (ok user, service) = (passes (some user), service)
  answered (err e, service) = (replies 401 "Invalid token", service)

  abbrev pub with_token : Option Text → JwtService Key → Outcome × JwtService Key
  with_token none service = (replies 401 "Invalid token", service)
  with_token (some token) service = answered (verify_token token service)

  -- The middleware. Nothing in its outer `try` throws.
  unfoldable pub authenticate_header : Option Text → JwtService Key → Outcome × JwtService Key
  authenticate_header none service = (replies 401 "No token provided", service)
  authenticate_header (some header) service =
      if starts_with bearer header
      then with_token (second_word header) service
      else (replies 401 "No token provided", service)

  -- The hook.
  unfoldable pub pre_handler : Request → JwtService Key → Outcome × JwtService Key
  pre_handler request service =
      if is_open request.url
      then (passes none, service)
      else if truthy request.websocket_protocol
      then (passes none, service)
      else if has_subscription request.query
      then (passes none, service)
      else authenticate_header request.authorization service
