-- ===== src/Committee/Owners.antt =====
-- What has been asked of the Safe's transaction service when signWithSafe succeeds.
use mathlib.Core.Path.{subst}
use freysa_spark_hackathon.Common.{
  ℕ, suc, ◌+◌, ◌≡◌, refl, sym, ◌∙◌, ap, Bool, true, false, Option, some, List, [], ◌∷◌, ◌++◌,
  String, Result, ok, err, Run, pure, bind-eq-ok, required-eq-ok, length, length-append, arith,
}
use freysa_spark_hackathon.Json.{Json}
use freysa_spark_hackathon.Committee.{
  SafeKits, OwnerSignature, Outcome, success, failure, Progress, announce, sign_as, sign_all,
  try_sign, caught, sign_with_safe,
}

-- The messages that have been proposed to the service and the confirmations that it has taken, which only
-- the two calls for them change.
pub record Register {W Kit SafeMessage Signature : Type 0}
    (kits : SafeKits W Kit SafeMessage Signature) : Type 0 where
  pub counts : W → ℕ × ℕ
  pub by_init : (a : String) (k : Option String) (w : W) → counts (kits.init a k w).1 ≡ counts w
  pub by_connect : (kit : Kit) (k a : String) (w : W) → counts (kits.connect kit k a w).1 ≡ counts w
  pub by_sign :
      (kit : Kit) (m : SafeMessage) (w : W) → counts (kits.sign_message kit m w).1 ≡ counts w
  pub by_build :
      (ss : List Signature) (a : String) (w : W)
      → counts (kits.build_contract_signature ss a w).1 ≡ counts w
  pub by_hash :
      (kit : Kit) (h : String) (w : W) → counts (kits.get_safe_message_hash kit h w).1 ≡ counts w
  pub by_address : (kit : Kit) (w : W) → counts (kits.get_address kit w).1 ≡ counts w
  pub by_get : (h : String) (w : W) → counts (kits.get_message h w).1 ≡ counts w
  pub proposed :
      (a m s : String) (w w' : W)
      → kits.add_message a m s w ≡ (ok tt, w')
      → counts w' ≡ (suc (counts w).0, (counts w).1)
  pub confirmed :
      (h s : String) (w w' : W)
      → kits.add_message_signature h s w ≡ (ok tt, w')
      → counts w' ≡ ((counts w).0, suc (counts w).1)

module _ {W Kit SafeMessage Signature : Type 0} {kits : SafeKits W Kit SafeMessage Signature}
    (register : Register kits) (safe_address message : String) where
  abbrev pub counts : W → ℕ × ℕ
  counts = register.counts

  -- One more proposal of the first owner, one more confirmation of another.
  abbrev announced : Bool → ℕ × ℕ → ℕ × ℕ
  announced true (p, c) = (suc p, c)
  announced false (p, c) = (p, suc c)

  counts-after :
      {A : Type 0} (m : Run W A) (w w' : W) (a : A)
      → m w ≡ (ok a, w')
      → counts (m w).1 ≡ counts w
      → counts w' ≡ counts w
  counts-after m w w' a ran kept = sym (ap (λ r. counts r.1) ran) ∙ kept

  announce-Counts :
      (b : Bool) (hash : String) (m : SafeMessage) (s : Signature) (w w' : W)
      → announce kits safe_address message b hash m s w ≡ (ok tt, w')
      → counts w' ≡ announced b (counts w)
  unfolding announce
  announce-Counts true hash m s w w' e =
      let (first, w1, e1, r1) = bind-eq-ok _ _ _ e in
      let (found, stayed) = required-eq-ok _ _ w e1 in
      register.proposed _ _ _ w1 w' r1 ∙ ap (λ v. announced true (counts v)) (sym stayed)
  announce-Counts false hash m s w w' e = register.confirmed _ _ w w' e

  pushed :
      (signed : List OwnerSignature) (next : Progress kits safe_address message) (kit : Kit)
      (m : SafeMessage) (x : OwnerSignature) (w w' : W)
      → pure (kit, m, signed ++ x ∷ []) w ≡ (ok next, w')
      → length next.2 ≡ suc (length signed)
  pushed signed next kit m x w w' e =
      let same : (kit, m, signed ++ x ∷ []) ≡ next = cc in
      ap (λ n. length n.2) (sym same) ∙ omega (arith, length-append signed (x ∷ []))

  sign_as-Counts :
      (b : Bool) (key : String) (progress next : Progress kits safe_address message) (w w' : W)
      → sign_as kits safe_address message b key progress w ≡ (ok next, w')
      → (length next.2 ≡ suc (length progress.2)) × (counts w' ≡ announced b (counts w))
  unfolding sign_as
  sign_as-Counts b key progress next w w' e =
      let (connected, w1, e1, r1) = bind-eq-ok _ _ _ e in
      let (by_owner, w2, e2, r2) = bind-eq-ok _ _ _ r1 in
      let (contract_signature, w3, e3, r3) = bind-eq-ok _ _ _ r2 in
      let (hash, w4, e4, r4) = bind-eq-ok _ _ _ r3 in
      let (u, w5, e5, r5) = bind-eq-ok _ _ _ r4 in
      let (signer, w6, e6, r6) = bind-eq-ok _ _ _ r5 in
      let c1 =
        counts-after (kits.connect progress.0 key safe_address) w w1 connected e1
          (register.by_connect _ _ _ w) in
      let c2 =
        counts-after (kits.sign_message connected progress.1) w1 w2 by_owner e2
          (register.by_sign _ _ w1) in
      let c3 =
        counts-after (kits.build_contract_signature (kits.signatures by_owner) safe_address) w2 w3
          contract_signature e3 (register.by_build _ _ w2) in
      let c4 =
        counts-after (kits.get_safe_message_hash connected (kits.hash_safe_message message)) w3 w4
          hash e4 (register.by_hash _ _ w3) in
      let c5 = announce-Counts b hash _ contract_signature w4 w5 e5 in
      let c6 =
        counts-after (kits.get_address connected) w5 w6 signer e6 (register.by_address _ w5) in
      (
        pushed progress.2 next connected _ _ w6 w' r6,
        ap (λ r. counts r.1) (sym r6) ∙ (c6 ∙ (c5 ∙ ap (announced b) (c4 ∙ (c3 ∙ (c2 ∙ c1))))),
      )

  sign_all-Counts :
      (keys : List String) (progress last : Progress kits safe_address message) (w w' : W)
      → sign_all kits safe_address message false keys progress w ≡ (ok last, w')
      → (length last.2 ≡ length keys + length progress.2)
        × ((counts w').0 ≡ (counts w).0)
        × ((counts w').1 ≡ length keys + (counts w).1)
  unfolding sign_all
  sign_all-Counts [] progress last w w' e =
      let same : last ≡ progress = cc in
      let stayed : w' ≡ w = cc in rw (same, stayed) (omega arith, refl, omega arith)
  sign_all-Counts (key ∷ keys) progress last w w' e =
      let (next, w1, e1, r1) = bind-eq-ok _ _ _ e in
      let (l1, c1) = sign_as-Counts false key progress next w w1 e1 in
      let (l2, p2, c2) = sign_all-Counts keys next last w1 w' r1 in
      (omega (arith, l1, l2), p2 ∙ ap (λ c. c.0) c1, omega (arith, c2, ap (λ c. c.1) c1))

  signed_by_all :
      (key : String) (keys : List String) (start last : Progress kits safe_address message)
      (w w' : W)
      → sign_all kits safe_address message true (key ∷ keys) start w ≡ (ok last, w')
      → (length last.2 ≡ suc (length keys) + length start.2)
        × ((counts w').0 ≡ suc (counts w).0)
        × ((counts w').1 ≡ length keys + (counts w).1)
  unfolding sign_all
  signed_by_all key keys start last w w' e =
      let (next, w1, e1, r1) = bind-eq-ok _ _ _ e in
      let (l1, c1) = sign_as-Counts true key start next w w1 e1 in
      let (l2, p2, c2) = sign_all-Counts keys next last w1 w' r1 in
      (omega (arith, l1, l2), p2 ∙ ap (λ c. c.0) c1, omega (arith, c2, ap (λ c. c.1) c1))

  -- The try block, where it returns.
  abbrev pub Announced : ℕ → W → Outcome × W → Type 0
  Announced n w (success m signed hash json, w') =
      (length signed ≡ suc n)
      × ((counts w').0 ≡ suc (counts w).0)
      × ((counts w').1 ≡ n + (counts w).1)
  Announced n w (failure e, w') = Unit

  finished :
      (n : ℕ) (w w1 w2 w4 w' : W) (signed : List OwnerSignature) (outcome : Outcome) (m : Json)
      (hash : String) (json : Json)
      → counts w1 ≡ counts w
      → length signed ≡ suc n
      → (counts w2).0 ≡ suc (counts w1).0
      → (counts w2).1 ≡ n + (counts w1).1
      → counts w4 ≡ counts w2
      → pure (success m signed hash json) w4 ≡ (ok outcome, w')
      → Announced n w (outcome, w')
  finished n w w1 w2 w4 w' signed outcome m hash json begun l p c later e =
      let same : success m signed hash json ≡ outcome = cc in
      let stayed = ap (λ r. counts r.1) (sym e) ∙ later in
      subst (λ o. Announced n w (o, w')) same
        (
          l,
          ap (λ k. k.0) stayed ∙ (p ∙ ap (λ k. suc k.0) begun),
          ap (λ k. k.1) stayed ∙ (c ∙ ap (λ k. n + k.1) begun),
        )

  try_sign-Announced :
      (key : String) (keys : List String) (w w' : W) (outcome : Outcome)
      → try_sign kits safe_address message (key ∷ keys) w ≡ (ok outcome, w')
      → Announced (length keys) w (outcome, w')
  unfolding try_sign
  try_sign-Announced key keys w w' outcome e =
      let (kit, w1, e1, r1) = bind-eq-ok _ _ _ e in
      let (last, w2, e2, r2) = bind-eq-ok _ _ _ r1 in
      let (hash, w3, e3, r3) = bind-eq-ok _ _ _ r2 in
      let (json, w4, e4, r4) = bind-eq-ok _ _ _ r3 in
      let (l, p, c) =
        signed_by_all key keys (kit, kits.create_message kit message, []) last w1 w2 e2 in
      let k1 =
        counts-after (kits.init safe_address (some key)) w w1 kit e1 (register.by_init _ _ w) in
      let k3 =
        counts-after (kits.get_safe_message_hash last.0 (kits.hash_safe_message message)) w2 w3 hash
          e3 (register.by_hash _ _ w2) in
      let k4 = counts-after (kits.get_message hash) w3 w4 json e4 (register.by_get _ w3) in
      finished (length keys) w w1 w2 w4 w' last.2 outcome _ hash json k1 (l ∙ omega arith) p c
        (k4 ∙ k3) r4

  -- If signWithSafe, given at least one owner's key, returns success, then it returns one signature for
  -- each key, and the service has been given one proposal and a confirmation for each key after the first;
  -- if any call on the way throws, it returns a failure, and so it always returns.
  pub sign_with_safe-Announced :
      (key : String) (keys : List String) (w : W)
      → Announced (length keys) w (sign_with_safe kits safe_address message (key ∷ keys) w)
  unfolding sign_with_safe
  sign_with_safe-Announced key keys w =
      by_result (try_sign kits safe_address message (key ∷ keys) w) refl
    where
      by_result :
          (r : Result Outcome × W)
          → try_sign kits safe_address message (key ∷ keys) w ≡ r
          → Announced (length keys) w (caught kits safe_address message r)
      by_result (ok outcome, w') e = try_sign-Announced key keys w w' outcome e
      by_result (err m, w') e = tt
