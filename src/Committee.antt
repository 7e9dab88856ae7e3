-- ===== src/Committee.antt =====
-- The committee's signing program, sovereign/committee/signing/safe_sign.js. The Safe kits are parameters; what
-- the program writes to its log is left out.
pub mod Owners
pub mod Responses
mod Examples
use Prim.Native.String.{[] as no_text, ◌∷◌ as ◌∷ₜ◌}
use Prim.Native.Char.{Char, code}
use freysa_spark_hackathon.Common.{
  ℕ, ◌==◌, Bool, true, false, Option, none, some, List, [], ◌∷◌, ◌++◌, String, Result, ok, err, Run,
  pure, required, ◌>>=◌, ◌>>◌, if◌then◌else◌,
}
use freysa_spark_hackathon.Json.{Json}

-- A protocol kit, a message of the Safe and a signature, and the calls on them. `signatures` are the
-- values of a message's map, in the order of their insertion.
pub record SafeKits (W Kit SafeMessage Signature : Type 0) : Type 0 where
  pub init : String → Option String → Run W Kit
  pub create_message : Kit → String → SafeMessage
  pub connect : Kit → String → String → Run W Kit
  pub sign_message : Kit → SafeMessage → Run W SafeMessage
  pub signatures : SafeMessage → List Signature
  pub build_contract_signature : List Signature → String → Run W Signature
  pub add_signature : SafeMessage → Signature → SafeMessage
  pub hash_safe_message : String → String
  pub get_safe_message_hash : Kit → String → Run W String
  pub build_signature_bytes : List Signature → String
  pub get_address : Kit → Run W String
  pub data_of : Signature → String
  pub message_data : SafeMessage → Json
  pub add_message : String → String → String → Run W (Unit {0})
  pub add_message_signature : String → String → Run W (Unit {0})
  pub get_message : String → Run W Json

-- `{ signer, data }`.
pub record OwnerSignature : Type 0 where
  pub signer : String
  pub signature_data : String

-- What signWithSafe returns.
pub data Outcome : Type 0 where
  success : Json → List OwnerSignature → String → Json → Outcome
  failure : String → Outcome

abbrev pub first_of : {A : Type 0} → List A → Option A
first_of [] = none
first_of (x ∷ xs) = some x

-- `text.split(",")`.
abbrev begin_part : Char → List String → List String
begin_part c [] = (c ∷ₜ no_text) ∷ []
begin_part c (part ∷ parts) = (c ∷ₜ part) ∷ parts

unfoldable pub split_commas : String → List String
split_commas no_text = no_text ∷ []
split_commas (c ∷ₜ s) =
    let parts = split_commas s in if code c == b',' then no_text ∷ parts else begin_part c parts

module _ {W Kit SafeMessage Signature : Type 0} (kits : SafeKits W Kit SafeMessage Signature)
    (safe_address message : String) where
  -- What the loop carries: the kit, the message and the signatures.
  abbrev pub Progress : Type 0
  Progress = Kit × SafeMessage × List OwnerSignature

  -- The first signer proposes the message; each other one adds a confirmation.
  unfoldable pub announce : Bool → String → SafeMessage → Signature → Run W (Unit {0})
  announce true hash safe_message contract_signature = do
    owner_signature ←
        required (first_of (kits.signatures safe_message)) "Cannot read properties of undefined"
    kits.add_message safe_address message (kits.build_signature_bytes (owner_signature ∷ []))
  announce false hash safe_message contract_signature =
      kits.add_message_signature hash (kits.build_signature_bytes (contract_signature ∷ []))

  -- The body of the loop, for one owner's key.
  unfoldable pub sign_as : Bool → String → Progress → Run W Progress
  sign_as is_first owner_key (kit, safe_message, signed) = do
    connected ← kits.connect kit owner_key safe_address
    by_owner ← kits.sign_message connected safe_message
    contract_signature ← kits.build_contract_signature (kits.signatures by_owner) safe_address
    let by_contract = kits.add_signature by_owner contract_signature in
        (do
          hash ← kits.get_safe_message_hash connected (kits.hash_safe_message message)
          announce is_first hash by_contract contract_signature
          signer ← kits.get_address connected
          pure (
            connected,
            by_contract,
            signed
                ++ record { signer = signer; signature_data = kits.data_of contract_signature }
                  ∷ [],
          ))

  unfoldable pub sign_all : Bool → List String → Progress → Run W Progress
  sign_all is_first [] progress = pure progress
  sign_all is_first (key ∷ keys) progress = do
    next ← sign_as is_first key progress
    sign_all false keys next

  -- The body of the try block.
  unfoldable pub try_sign : List String → Run W Outcome
  try_sign owner_keys = do
    kit ← kits.init safe_address (first_of owner_keys)
    (last_kit, safe_message, signed) ←
        sign_all true owner_keys (kit, kits.create_message kit message, [])
    hash ← kits.get_safe_message_hash last_kit (kits.hash_safe_message message)
    confirmed ← kits.get_message hash
    pure (success (kits.message_data safe_message) signed hash confirmed)

  abbrev pub caught : Result Outcome × W → Outcome × W
  caught (ok outcome, w) = (outcome, w)
  caught (err e, w) = (failure e, w)

  unfoldable pub sign_with_safe : List String → W → Outcome × W
  sign_with_safe owner_keys w = caught (try_sign owner_keys w)

  abbrev pub exit_code : Outcome → ℕ
  exit_code (success m signed hash confirmed) = 0
  exit_code (failure e) = 1

  -- The program's action: its exit code.
  unfoldable pub main : String → W → ℕ × W
  main owner_keys w =
      let (outcome, w') = sign_with_safe (split_commas owner_keys) w in (exit_code outcome, w')
