-- ===== src/Transactions/Signer/Proposals.antt =====
-- What a Safe proposal that goes through has proposed.
use freysa_spark_hackathon.Common.{
  ℕ, ◌≡◌, refl, false, Option, none, some, [], ◌∷◌, ◌⊎◌, inl, inr, String, Text, ok, bind-eq-ok,
  required-eq-ok,
}
use freysa_spark_hackathon.Transactions.Hex.{parsed, parse_int_16}
use freysa_spark_hackathon.Transactions.GrpcClient.{GrpcClient, KeyPoolService, SigningKey}
use freysa_spark_hackathon.Transactions.SafeSignature.{Viem, eth_sign, last_two}
use freysa_spark_hackathon.Transactions.SafeSignature.Recovery.{IsSafeV, adjust_v-IsSafeV}
use freysa_spark_hackathon.Transactions.Signer.Config.{
  Ethers, SafeKits, Proposal, MetaTransactionData, call, delegate_call,
}
use freysa_spark_hackathon.Transactions.Signer.Operations.{
  meta_transaction, sign_and_broadcast_safe_transaction,
}

-- The data of a transaction of the Safe that makes a call with this value and this input: a plain call of
-- `to` where there is no proxy, or an empty one, and else a delegate call of the proxy.
pub record Carries (proxy : Option Text) (to value input : Text) (data_of : MetaTransactionData)
    : Type 0 where
  pub same_value : data_of.value ≡ value
  pub same_input : data_of.data_field ≡ input
  pub destination :
      (((proxy ≡ none) ⊎ (proxy ≡ some [])) × (data_of.to ≡ to) × (data_of.operation ≡ call))
      ⊎ ((c : ℕ) × (rest : Text) × (proxy ≡ some (c ∷ rest))
          × (data_of.to ≡ c ∷ rest)
          × (data_of.operation ≡ delegate_call))

meta_transaction-Carries :
    (proxy : Option Text) (to value input : Text)
    → Carries proxy to value input (meta_transaction proxy to value input)
unfolding meta_transaction
meta_transaction-Carries none to value input = record {
  same_value = refl;
  same_input = refl;
  destination = inl (inl refl, refl, refl);
}
meta_transaction-Carries (some []) to value input = record {
  same_value = refl;
  same_input = refl;
  destination = inl (inr refl, refl, refl);
}
meta_transaction-Carries (some (c ∷ proxy)) to value input = record {
  same_value = refl;
  same_input = refl;
  destination = inr (c, proxy, refl, refl, refl);
}

module _ {W : Type 0} (ethers : Ethers W) (kits : SafeKits W) (service : KeyPoolService W)
    (viem : Viem) where
  -- The proposal `p` of a run that ends in `w'`, and the transaction that it was made from.
  pub record Proposed (safe : String) (proxy : Option Text) (to value input : Text) (w' : W)
      : Type 0 where
    pub chain_id : ℕ
    pub proposal : Proposal kits.SafeTx
    pub last_call : (t : W) × (kits.propose_transaction chain_id proposal t ≡ (ok tt, w'))
    pub made_from :
        (kit : kits.Kit) × (data_of : MetaTransactionData) × (t t' : W) × (kits.create_transaction
            kit data_of t
          ≡ (ok proposal.safe_transaction, t'))
        × Carries proxy to value input data_of
    pub same_safe : proposal.safe_address ≡ safe
    pub safe_v :
        (v : ℕ) × IsSafeV v × (parse_int_16 (last_two proposal.sender_signature) ≡ parsed false v)

  -- A Safe transaction that is signed and broadcast without an error has ended in the proposal, to
  -- its own Safe, of the transaction created for the value and the input that were given: a plain call
  -- of `to`, or a delegate call of the deployer proxy where one that is not empty is given. It is sent with a signature whose last byte is a V value that a Safe accepts.
  pub safe_transaction-Proposed :
      (client : GrpcClient) (safe : String) (proxy : Option Text) (rpc : String) (key : SigningKey)
      (to value input : Text) (w w' : W)
      → sign_and_broadcast_safe_transaction ethers kits service viem client safe proxy rpc key to
          value input w
        ≡ (ok tt, w')
      → Proposed safe proxy to value input w'
  unfolding sign_and_broadcast_safe_transaction
  safe_transaction-Proposed client safe proxy rpc key to value input w w' e =
      let (chain_id, s1, e1, r1) = bind-eq-ok _ _ _ e in
      let (kit, s2, e2, r2) = bind-eq-ok _ _ _ r1 in
      let (tx, s3, e3, r3) = bind-eq-ok _ _ _ r2 in
      let (tx_hash, s4, e4, r4) = bind-eq-ok _ _ _ r3 in
      let (wallet, s5, e5, r5) = bind-eq-ok _ _ _ r4 in
      let (signature, s6, e6, r6) = bind-eq-ok _ _ _ r5 in
      let (signature_v2, s7, e7, r7) = bind-eq-ok _ _ _ r6 in
      let (v, safe_v, reads, _) =
        adjust_v-IsSafeV viem tx_hash (some wallet) eth_sign signature signature_v2
          (required-eq-ok _ "Invalid signature" s6 e7).0 in
      record {
        chain_id = chain_id;
        proposal = record {
          safe_address = safe;
          safe_transaction = tx;
          safe_tx_hash = tx_hash;
          sender_address = wallet;
          sender_signature = signature_v2;
        };
        last_call = (s7, r7);
        made_from = (
          kit,
          meta_transaction proxy to value input,
          s2,
          s3,
          e3,
          meta_transaction-Carries proxy to value input,
        );
        same_safe = refl;
        safe_v = (v, safe_v, reads);
      }
