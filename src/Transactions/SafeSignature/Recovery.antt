-- ===== src/Transactions/SafeSignature/Recovery.antt =====
-- What adjustVInSignature writes into the last byte of a signature.
use freysa_spark_hackathon.Common.{
  ℕ, ◌+◌, ◌-◌, ◌%◌, ◌≡◌, ◌⊎◌, inl, inr, refl, ◌∙◌, true, false, Option, some, ◌++◌, arith, length,
  Text, Option-cases, length-append, take-append_self, drop-append_self, if◌then◌else◌,
}
use freysa_spark_hackathon.Transactions.Hex.{
  ParsedInt, nan, parsed, parse_int_16, to_string_16, hex_digits, hex_digit, parse_signed, strip_0x,
  parse_first, parse_digits, digit_value,
}
use freysa_spark_hackathon.Utils.Chunker.{trim_start, is_space}
use freysa_spark_hackathon.Transactions.SafeSignature.{
  Viem, SigningMethod, eth_sign, eth_sign_typed_data, last_two, without_last_two, ethereum_v,
  raise_v, is_tx_hash_signed_with_prefix, adjusted_v, adjust_v_in_signature,
}

-- The V values that a Safe accepts: 27 and 28, and four more for a prefixed message.
abbrev pub IsSafeV : ℕ → Type 0
IsSafeV v = (v ≡ 27) ⊎ ((v ≡ 28) ⊎ ((v ≡ 31) ⊎ (v ≡ 32)))

ethereum_v-cases :
    (p : ParsedInt) {v : ℕ} → ethereum_v p ≡ some v → (v ≡ 0) ⊎ ((v ≡ 1) ⊎ ((v ≡ 27) ⊎ (v ≡ 28)))
unfolding ethereum_v
ethereum_v-cases nan e = cc
ethereum_v-cases (parsed true n) e = ground arith
ethereum_v-cases (parsed false n) e = ground arith

raise_v-safe : (v : ℕ) → (v ≡ 0) ⊎ ((v ≡ 1) ⊎ ((v ≡ 27) ⊎ (v ≡ 28))) → raise_v v ≡ 27 + v % 27
unfolding raise_v
raise_v-safe v h = ground arith

-- Two digits, and read back as the number.
abbrev ReadsBack : ℕ → Type 0
ReadsBack v = (length (to_string_16 v) ≡ 2) × (parse_int_16 (to_string_16 v) ≡ parsed false v)

safe_v-reads : (v : ℕ) → IsSafeV v → ReadsBack v
unfolding to_string_16 hex_digits hex_digit parse_int_16 trim_start is_space parse_signed strip_0x
    parse_first parse_digits digit_value
safe_v-reads v (inl e) = rw e (refl, refl)
safe_v-reads v (inr (inl e)) = rw e (refl, refl)
safe_v-reads v (inr (inr (inl e))) = rw e (refl, refl)
safe_v-reads v (inr (inr (inr e))) = rw e (refl, refl)

-- A signature whose last two units are replaced by two others.
last_two-append :
    (front pair : Text)
    → length pair ≡ 2
    → (last_two (front ++ pair) ≡ pair) × (without_last_two (front ++ pair) ≡ front)
last_two-append front pair two =
    let n : length (front ++ pair) - 2 ≡ length front = omega (arith, length-append front pair) in
    (rw n (drop-append_self front pair), rw n (take-append_self front pair))

module _ (viem : Viem) (safe_tx_hash : Text) (signer : Option Text) where
  adjusted_v-IsSafeV :
      (method : SigningMethod) (signature : Text) (v : ℕ)
      → (v ≡ 0) ⊎ ((v ≡ 1) ⊎ ((v ≡ 27) ⊎ (v ≡ 28)))
      → IsSafeV (adjusted_v viem method signature v safe_tx_hash signer)
  unfolding adjusted_v raise_v
  adjusted_v-IsSafeV eth_sign signature v h = ground arith
  adjusted_v-IsSafeV eth_sign_typed_data signature v h = ground arith

  -- The V value that was read, and the text that is written for it.
  adjust_v-inv :
      (method : SigningMethod) (signature : Text) {out : Text}
      → adjust_v_in_signature viem method signature safe_tx_hash signer ≡ some out
      → (v : ℕ) × (ethereum_v (parse_int_16 (last_two signature)) ≡ some v)
        × (out
            ≡ without_last_two signature
              ++ to_string_16 (adjusted_v viem method signature v safe_tx_hash signer))
  unfolding adjust_v_in_signature
  adjust_v-inv method signature e =
      elim (Option-cases (ethereum_v (parse_int_16 (last_two signature)))) [
        | inl e0 ↦ cc (rw (e0, adjust_v_in_signature) at e)
        | inr (v, found) ↦ (v, found, cc (rw (found, adjust_v_in_signature) at e))
      ]

  -- A signature that adjustVInSignature returns ends in two hexadecimal digits for 27, 28, 31 or
  -- 32, and is the one that it was given in front of them.
  pub adjust_v-IsSafeV :
      (method : SigningMethod) (signature out : Text)
      → adjust_v_in_signature viem method signature safe_tx_hash signer ≡ some out
      → (v : ℕ) × IsSafeV v
        × (parse_int_16 (last_two out) ≡ parsed false v)
        × (without_last_two out ≡ without_last_two signature)
  adjust_v-IsSafeV method signature out e =
      let (v, found, same) = adjust_v-inv method signature e in
      let w = adjusted_v viem method signature v safe_tx_hash signer in
      let safe = adjusted_v-IsSafeV method signature v (ethereum_v-cases _ found) in
      let (two, reads) = safe_v-reads w safe in
      let (last, front) = last_two-append (without_last_two signature) (to_string_16 w) two in
      (w, safe, rw (same, last) reads, rw same front)

  typed_v :
      (signature : Text) (v : ℕ)
      → (v ≡ 0) ⊎ ((v ≡ 1) ⊎ ((v ≡ 27) ⊎ (v ≡ 28)))
      → adjusted_v viem eth_sign_typed_data signature v safe_tx_hash signer ≡ 27 + v % 27
  unfolding adjusted_v
  typed_v signature v h = raise_v-safe v h

  adjust_v_of :
      (method : SigningMethod) (signature : Text) (v : ℕ)
      → ethereum_v (parse_int_16 (last_two signature)) ≡ some v
      → adjust_v_in_signature viem method signature safe_tx_hash signer
        ≡ some (
            without_last_two signature
            ++ to_string_16 (adjusted_v viem method signature v safe_tx_hash signer))
  unfolding adjust_v_in_signature
  adjust_v_of method signature v found = rw (found, adjust_v_in_signature)

  accepted : (v : ℕ) → (v ≡ 27) ⊎ (v ≡ 28) → ethereum_v (parsed false v) ≡ some v
  unfolding ethereum_v
  accepted v h = ground arith

  kept :
      (signature : Text) (v : ℕ)
      → (v ≡ 27) ⊎ (v ≡ 28)
      → adjusted_v viem eth_sign_typed_data signature v safe_tx_hash signer ≡ v
  unfolding adjusted_v raise_v
  kept signature v h = ground arith

  adjusted_again :
      (front out : Text) (v : ℕ)
      → (v ≡ 27) ⊎ (v ≡ 28)
      → out ≡ front ++ to_string_16 v
      → adjust_v_in_signature viem eth_sign_typed_data out safe_tx_hash signer ≡ some out
  adjusted_again front out v h same =
      let (two, reads) = safe_v-reads v (ground arith) in
      let (last, rest) = last_two-append front (to_string_16 v) two in
      let found : ethereum_v (parse_int_16 (last_two out)) ≡ some v =
        rw (same, last, reads) (accepted v h) in
      adjust_v_of eth_sign_typed_data out v found ∙ (rw (kept out v h) (rw (same, rest) refl))

  -- For typed data the adjustment is idempotent: a signature that it returned is returned as it is.
  pub adjust_v-idempotent :
      (signature out : Text)
      → adjust_v_in_signature viem eth_sign_typed_data signature safe_tx_hash signer ≡ some out
      → adjust_v_in_signature viem eth_sign_typed_data out safe_tx_hash signer ≡ some out
  adjust_v-idempotent signature out e =
      let (v, found, same) = adjust_v-inv eth_sign_typed_data signature e in
      let four = ethereum_v-cases _ found in
      adjusted_again (without_last_two signature) out (27 + v % 27) (ground arith)
        (rw (typed_v signature v four) at same)

  adjusted_v_eth_sign :
      (signature : Text) (v : ℕ)
      → raise_v v ≡ 27 + v % 27
      → adjusted_v viem eth_sign signature v safe_tx_hash signer ≡ (
          if is_tx_hash_signed_with_prefix viem safe_tx_hash
            (without_last_two signature ++ to_string_16 (27 + v % 27))
            signer
          then 27 + v % 27 + 4
          else 27 + v % 27)
  unfolding adjusted_v
  adjusted_v_eth_sign signature v e = rw e

  -- For a signature by `eth_sign` with one of the four accepted V values, the V that is written is
  -- 27 plus the parity, and four more exactly where the signature with that V is taken for one of
  -- a prefixed message.
  pub adjust_v_prefix :
      (signature out : Text) (v : ℕ)
      → ethereum_v (parse_int_16 (last_two signature)) ≡ some v
      → adjust_v_in_signature viem eth_sign signature safe_tx_hash signer ≡ some out
      → parse_int_16 (last_two out)
        ≡ parsed false (
            if is_tx_hash_signed_with_prefix viem safe_tx_hash
              (without_last_two signature ++ to_string_16 (27 + v % 27))
              signer
            then 27 + v % 27 + 4
            else 27 + v % 27)
  adjust_v_prefix signature out v found e =
      let four = ethereum_v-cases _ found in
      let w = adjusted_v viem eth_sign signature v safe_tx_hash signer in
      let same : out ≡ without_last_two signature ++ to_string_16 w =
        cc (e, adjust_v_of eth_sign signature v found) in
      let (two, reads) = safe_v-reads w (adjusted_v-IsSafeV eth_sign signature v four) in
      let last = last_two-append (without_last_two signature) (to_string_16 w) two in
      rw (← adjusted_v_eth_sign signature v (raise_v-safe v four)) (rw (same, last.0) reads)
