-- ===== src/Auth/Examples.antt =====
-- Runs of the hook under a library that accepts one token for one user.
use freysa_spark_hackathon.Common.{
  ◌≡◌, refl, none, some, [], ◌∷◌, ◌++◌, ok, err, Text, text_eq, if◌then◌else◌, ◌↔◌, ◌>>=◌,
}
use freysa_spark_hackathon.Auth.{
  Jose, JwtService, Request, passes, replies, bearer, subscription, pre_handler, is_open,
  authenticate_header, second_word, verify_token, get_public_key, verified, until_space, subject,
}
use freysa_spark_hackathon.Auth.Search.{includes, starts_with}
use freysa_spark_hackathon.Auth.Access.{GoesOn, pre_handler-GoesOn}

abbrev token : Text
token = 97 ∷ 98 ∷ []

abbrev jose : Jose (Unit {0})
jose = record {
  import_spki = λ pem. ok tt;
  jwt_verify = λ t key issuer audience. if text_eq t token then ok (some "alice") else err "bad";
}

abbrev service : JwtService (Unit {0})
service = record {
  public_key = none;
  public_key_pem = "pem";
  issuer = "issuer";
  audience = "audience";
}

abbrev with_header : Text → Request
with_header header = record {
  url = "/graphql";
  websocket_protocol = none;
  authorization = some header;
  query = some (123 ∷ 125 ∷ []);
}

abbrev mutation : Request
mutation = record {
  url = "/graphql";
  websocket_protocol = none;
  authorization = none;
  query = some (35 ∷ (subscription ++ (10 ∷ 123 ∷ 125 ∷ [])));
}

good_token : (pre_handler jose (with_header (bearer ++ token)) service).0 ≡ passes (some "alice")
unfolding pre_handler is_open includes starts_with authenticate_header second_word verify_token
    ◌>>=◌ get_public_key verified text_eq until_space subject
good_token = refl

bad_token :
    (pre_handler jose (with_header (bearer ++ (97 ∷ []))) service).0 ≡ replies 401 "Invalid token"
unfolding pre_handler is_open includes starts_with authenticate_header second_word verify_token
    ◌>>=◌ get_public_key verified text_eq until_space subject
bad_token = refl

pre_handler-GoesOn_example :
    ((pre_handler jose (with_header (bearer ++ token)) service).0 ≡ passes (some "alice"))
    ↔ GoesOn jose service (with_header (bearer ++ token)) (some "alice")
pre_handler-GoesOn_example =
    pre_handler-GoesOn jose service (with_header (bearer ++ token)) (some "alice") tt
