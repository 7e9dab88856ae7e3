-- ===== src/Committee/Examples.antt =====
-- A Safe with two owners, and a service that counts.
use freysa_spark_hackathon.Common.{
  ℕ, suc, ◌+◌, ◌≡◌, refl, sym, ap, List, [], ◌∷◌, String, ok, pure, length,
}
use freysa_spark_hackathon.Json.{Json, null}
use freysa_spark_hackathon.Committee.{
  SafeKits, OwnerSignature, success, split_commas, sign_with_safe,
}
use freysa_spark_hackathon.Committee.Owners.{Register}
use freysa_spark_hackathon.Committee.Responses.{Responsive, sign_with_safe_completes}

split_run : split_commas "0xa,0xb,," ≡ "0xa" ∷ "0xb" ∷ "" ∷ "" ∷ []
unfolding split_commas
split_run = refl

-- A kit is the key that it signs with, a signature too, and a message its signatures.
abbrev kits : SafeKits (ℕ × ℕ) String (List String) String
kits = record {
  init = λ a k. pure "none";
  create_message = λ kit m. [];
  connect = λ kit k a. pure k;
  sign_message = λ kit m. pure (kit ∷ m);
  signatures = λ m. m;
  build_contract_signature = λ ss a. pure a;
  add_signature = λ m s. s ∷ m;
  hash_safe_message = λ m. m;
  get_safe_message_hash = λ kit h. pure h;
  build_signature_bytes = λ ss. "0x";
  get_address = λ kit. pure "0xsafe";
  data_of = λ s. s;
  message_data = λ m. null;
  add_message = λ a m s w. (ok tt, (suc w.0, w.1));
  add_message_signature = λ h s w. (ok tt, (w.0, suc w.1));
  get_message = λ h. pure null;
}

counted_proposal :
    (a m s : String) (w w' : ℕ × ℕ) → kits.add_message a m s w ≡ (ok tt, w') → w' ≡ (suc w.0, w.1)
counted_proposal a m s w w' e = ap (λ r. r.1) (sym e)

counted_confirmation :
    (h s : String) (w w' : ℕ × ℕ)
    → kits.add_message_signature h s w ≡ (ok tt, w')
    → w' ≡ (w.0, suc w.1)
counted_confirmation h s w w' e = ap (λ r. r.1) (sym e)

register : Register kits
register = record {
  counts = λ w. w;
  by_init = λ a k w. refl;
  by_connect = λ kit k a w. refl;
  by_sign = λ kit m w. refl;
  by_build = λ ss a w. refl;
  by_hash = λ kit h w. refl;
  by_address = λ kit w. refl;
  by_get = λ h w. refl;
  proposed = counted_proposal;
  confirmed = counted_confirmation;
}

responsive : Responsive kits
responsive = record {
  init_answers = λ a k w. (_, _, refl);
  connect_answers = λ kit k a w. (_, _, refl);
  sign_answers = λ kit m w. (_, _, refl);
  build_answers = λ ss a w. (_, _, refl);
  hash_answers = λ kit h w. (_, _, refl);
  address_answers = λ kit w. (_, _, refl);
  get_answers = λ h w. (_, _, refl);
  add_answers = λ a m s w. (_, _, refl);
  confirm_answers = λ h s w. (_, _, refl);
  signed_first = λ m s. (_, refl);
}

sign_with_safe_completes_example :
    (m : Json) × (signed : List OwnerSignature) × (hash : String) × (json : Json) × (w' : ℕ × ℕ)
    × (sign_with_safe kits "0xsafe" "PCR" ("0xa" ∷ "0xb" ∷ []) (0, 0)
        ≡ (success m signed hash json, w'))
    × (length signed ≡ 2)
    × (w'.0 ≡ 1)
    × (w'.1 ≡ 1 + 0)
unfolding register
sign_with_safe_completes_example =
    sign_with_safe_completes register responsive "0xsafe" "PCR" "0xa" ("0xb" ∷ []) (0, 0)
