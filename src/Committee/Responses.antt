-- ===== src/Committee/Responses.antt =====
-- signWithSafe where every call answers.
use freysa_spark_hackathon.Common.{
  suc, ◌+◌, ◌≡◌, refl, ◌∙◌, ap, Bool, true, false, Option, some, List, [], ◌∷◌, String, ok, Run,
  ◌>>=◌, bind-ok, length,
}
use mathlib.Core.Path.{subst}
use freysa_spark_hackathon.Json.{Json}
use freysa_spark_hackathon.Committee.{
  SafeKits, OwnerSignature, Outcome, success, first_of, Progress, announce, sign_as, sign_all,
  try_sign, caught, sign_with_safe,
}
use freysa_spark_hackathon.Committee.Owners.{Register, counts, Announced, sign_with_safe-Announced}

abbrev pub Returns : {W A : Type 0} → Run W A → Type 0
Returns {W} {A} m = (w : W) → (a : A) × (w' : W) × (m w ≡ (ok a, w'))

Returns-bind :
    {W A B : Type 0} (m : Run W A) (f : A → Run W B)
    → Returns m
    → ((a : A) → Returns (f a))
    → Returns (m >>= f)
Returns-bind m f h k w =
    let (a, w1, e) = h w in let (b, w2, e') = k a w1 in (b, w2, bind-ok m f w e ∙ e')

-- Every call answers, and a message with a signature has a first one.
pub record Responsive {W Kit SafeMessage Signature : Type 0}
    (kits : SafeKits W Kit SafeMessage Signature) : Type 0 where
  pub init_answers : (a : String) (k : Option String) → Returns (kits.init a k)
  pub connect_answers : (kit : Kit) (k a : String) → Returns (kits.connect kit k a)
  pub sign_answers : (kit : Kit) (m : SafeMessage) → Returns (kits.sign_message kit m)
  pub build_answers :
      (ss : List Signature) (a : String) → Returns (kits.build_contract_signature ss a)
  pub hash_answers : (kit : Kit) (h : String) → Returns (kits.get_safe_message_hash kit h)
  pub address_answers : (kit : Kit) → Returns (kits.get_address kit)
  pub get_answers : (h : String) → Returns (kits.get_message h)
  pub add_answers : (a m s : String) → Returns (kits.add_message a m s)
  pub confirm_answers : (h s : String) → Returns (kits.add_message_signature h s)
  pub signed_first :
      (m : SafeMessage) (s : Signature)
      → (first : Signature) × (first_of (kits.signatures (kits.add_signature m s)) ≡ some first)

module _ {W Kit SafeMessage Signature : Type 0} {kits : SafeKits W Kit SafeMessage Signature}
    (register : Register kits) (responsive : Responsive kits) (safe_address message : String) where
  announce-Returns :
      (b : Bool) (hash : String) (m : SafeMessage) (s : Signature)
      → Returns (announce kits safe_address message b hash (kits.add_signature m s) s)
  unfolding announce
  announce-Returns true hash m s =
      Returns-bind _ _ (λ w. let (first, e) = responsive.signed_first m s in (first, w, rw e refl))
        (λ first. responsive.add_answers _ _ _)
  announce-Returns false hash m s = responsive.confirm_answers _ _

  sign_as-Returns :
      (b : Bool) (key : String) (progress : Progress kits safe_address message)
      → Returns (sign_as kits safe_address message b key progress)
  unfolding sign_as
  sign_as-Returns b key progress = Returns-bind _ _ (responsive.connect_answers _ _ _) λ kit.
      Returns-bind _ _ (responsive.sign_answers _ _) λ m.
        Returns-bind _ _ (responsive.build_answers _ _) λ s.
          Returns-bind _ _ (responsive.hash_answers _ _) λ hash.
            Returns-bind _ _ (announce-Returns b hash m s)
              λ _. Returns-bind _ _ (responsive.address_answers _) (λ signer w. (_, w, refl))

  sign_all-Returns :
      (keys : List String) (b : Bool) (progress : Progress kits safe_address message)
      → Returns (sign_all kits safe_address message b keys progress)
  unfolding sign_all
  sign_all-Returns [] b progress w = (progress, w, refl)
  sign_all-Returns (key ∷ keys) b progress w =
      Returns-bind _ _ (sign_as-Returns b key progress) (sign_all-Returns keys false) w

  abbrev Success : Outcome → Type 0
  Success outcome =
      (m : Json) × (signed : List OwnerSignature) × (hash : String) × (json : Json) × (outcome
        ≡ success m signed hash json)

  try_sign-Succeeds :
      (keys : List String) (w : W)
      → (outcome : Outcome) × (w' : W) × (try_sign kits safe_address message keys w
          ≡ (ok outcome, w'))
        × Success outcome
  unfolding try_sign
  try_sign-Succeeds keys w =
      let (kit, w1, e1) = responsive.init_answers safe_address (first_of keys) w in
      let (last, w2, e2) =
        sign_all-Returns keys true (kit, kits.create_message kit message, []) w1 in
      let (hash, w3, e3) = responsive.hash_answers last.0 (kits.hash_safe_message message) w2 in
      let (json, w4, e4) = responsive.get_answers hash w3 in
      (
        _,
        w4,
        bind-ok _ _ w e1 ∙ (bind-ok _ _ w1 e2 ∙ (bind-ok _ _ w2 e3 ∙ bind-ok _ _ w3 e4)),
        (kits.message_data last.1, last.2, hash, json, refl),
      )

  -- Over a service that counts what it is given (Register): if every call answers (Responsive),
  -- signWithSafe, given at least one owner's key, returns success with one signature for each key, and the
  -- service has been given one proposal and a confirmation for each key after the first.
  pub sign_with_safe_completes :
      (key : String) (keys : List String) (w : W)
      → (m : Json) × (signed : List OwnerSignature) × (hash : String) × (json : Json) × (w' : W)
        × (sign_with_safe kits safe_address message (key ∷ keys) w
            ≡ (success m signed hash json, w'))
        × (length signed ≡ suc (length keys))
        × ((counts register safe_address message w').0
            ≡ suc (counts register safe_address message w).0)
        × ((counts register safe_address message w').1
            ≡ length keys + (counts register safe_address message w).1)
  unfolding sign_with_safe
  sign_with_safe_completes key keys w =
      let (outcome, w', e, (m, signed, hash, json, s)) = try_sign-Succeeds (key ∷ keys) w in
      let run : sign_with_safe kits safe_address message (key ∷ keys) w
          ≡ (success m signed hash json, w') =
        ap (caught kits safe_address message) e ∙ ap (λ o. (o, w')) s in
      let (l, p, c) =
        subst (Announced register safe_address message (length keys) w) run
          (sign_with_safe-Announced register safe_address message key keys w) in
      (m, signed, hash, json, w', run, l, p, c)
