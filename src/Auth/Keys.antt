-- ===== src/Auth/Keys.antt =====
-- What verifyToken accepts, and that the imported key may be kept between calls.
use freysa_spark_hackathon.Common.{
  ◌≡◌, refl, sym, ◌↔◌, inl, inr, true, Option, none, some, String, Result, ok, err, throw, on_error,
  ◌>>=◌, go_on, Text, is_truthy, Bool-cases,
}
use freysa_spark_hackathon.Auth.{
  Jose, JwtService, keep_key, key_of, get_public_key, checked_subject, subject, verified,
  verify_token,
}

subject_iff :
    (sub : Option String) (user : String)
    → (subject sub ≡ ok user) ↔ ((sub ≡ some user) × (is_truthy user ≡ true))
unfolding subject
subject_iff none user = (λ e. cc, λ h. cc)
subject_iff (some u) user = elim (Bool-cases (is_truthy u)) [
  | inl h ↦ rw h (λ e. (cc, cc), λ g. cc)
  | inr h ↦ rw h (λ e. cc, λ g. cc)
]

verified_iff :
    (r : Result (Option String)) (user : String)
    → (verified r ≡ ok user) ↔ ((r ≡ ok (some user)) × (is_truthy user ≡ true))
unfolding verified
verified_iff (err e) user = (λ h. cc, λ h. cc)
verified_iff (ok sub) user =
    let b = subject_iff sub user in (λ h. let g = b.0 h in (cc, g.1), λ h. b.1 (cc, h.1))

module _ {Key : Type 0} (jose : Jose Key) where
  -- The key that is kept is the one that the PEM stands for.
  abbrev pub IsImported : Option Key → String → Type 0
  IsImported none pem = Unit
  IsImported (some key) pem = jose.import_spki pem ≡ ok key

  abbrev pub IsKeyed : JwtService Key → Type 0
  IsKeyed service = IsImported service.public_key service.public_key_pem

  -- The token is signed under the service's key, and names a user.
  abbrev pub Verified : JwtService Key → Text → String → Type 0
  Verified service token user =
      (key : Key) × (jose.import_spki service.public_key_pem ≡ ok key)
      × (jose.jwt_verify token key service.issuer service.audience ≡ ok (some user))
      × (is_truthy user ≡ true)

  on_error_iff :
      {S : Type 0} (m : String) (r : Result String × S) (user : String)
      → ((on_error (λ _. throw m) r).0 ≡ ok user) ↔ (r.0 ≡ ok user)
  on_error_iff m (ok u, s) user = (λ e. e, λ e. e)
  on_error_iff m (err e, s) user = (λ h. cc, λ h. cc)

  -- A key or an error that the service's PEM stands for.
  abbrev pub Imports : JwtService Key → Result Key × JwtService Key → Type 0
  Imports service (r, t) =
      (jose.import_spki service.public_key_pem ≡ r)
      × (t.issuer ≡ service.issuer)
      × (t.audience ≡ service.audience)

  keep_key-Imports :
      (service : JwtService Key) (r : Result Key)
      → jose.import_spki service.public_key_pem ≡ r
      → Imports service (keep_key jose r service)
  keep_key-Imports service (err e) h = (h, refl, refl)
  keep_key-Imports service (ok key) h = (h, refl, refl)

  key_of-Imports :
      (service : JwtService Key) (o : Option Key)
      → IsImported o service.public_key_pem
      → Imports service (key_of jose o service)
  key_of-Imports service none keyed = keep_key-Imports service _ refl
  key_of-Imports service (some key) keyed = (keyed, refl, refl)

  accepts_after :
      (service : JwtService Key) (token : Text) (user : String) (p : Result Key × JwtService Key)
      → Imports service p
      → ((on_error
            (λ _. throw "Token verification failed")
            (go_on (checked_subject jose token) p)).0
          ≡ ok user)
        ↔ Verified service token user
  accepts_after service token user (err e, t) i = (λ h. cc, λ v. cc)
  accepts_after service token user (ok key, t) (i, same_issuer, same_audience) =
      let reads = verified_iff (jose.jwt_verify token key t.issuer t.audience) user in
      let back = on_error_iff "Token verification failed" (checked_subject jose token key t) user in
      (
        (λ h.
            let g = reads.0 (back.0 h) in
            (key, i, rw (sym same_issuer, sym same_audience) g.0, g.1)),
        λ (k, j, v, named).
            let same_key : key ≡ k = cc in
            back.1 (reads.1 (rw (same_issuer, same_audience, same_key) v, named)),
      )

  pub verify_token-accepts :
      (service : JwtService Key) (token : Text) (user : String)
      → IsKeyed service
      → ((verify_token jose token service).0 ≡ ok user) ↔ Verified service token user
  unfolding verify_token get_public_key ◌>>=◌
  verify_token-accepts service token user keyed =
      accepts_after service token user _ (key_of-Imports service service.public_key keyed)
