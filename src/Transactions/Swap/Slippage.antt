-- ===== src/Transactions/Swap/Slippage.antt =====
-- What a built swap asks of the router, against the quote and the allowance that the run read.
use freysa_spark_hackathon.Common.{
  ℕ, ◌+◌, ◌*◌, ◌≤◌, ◌<◌, ◌≡◌, ◌⊎◌, inl, inr, refl, none, some, List, [], ◌∷◌, String, arith, ltb,
  get_elem?, ok, bind-eq-ok, pure-eq-ok, required-eq-ok, Bool-cases, ltb→lt,
}
use freysa_spark_hackathon.Transactions.Swap.{
  Contracts, Built, amount_out_min_of, approve_of, build_uniswap_swap_tx,
}

-- The values that one run read, in order, and what it built of them.
pub record Quoted {W : Type 0} (c : Contracts W) (router token_input token_output : String)
    (beneficiary : String) (b : Built) : Type 0 where
  pub amount : ℕ
  pub allowed : ℕ
  pub amounts_out : List ℕ
  pub out : ℕ
  pub now : ℕ
  pub asked : (s s' : W) × (c.allowance token_input beneficiary router s ≡ (ok allowed, s'))
  pub quoted :
      (s s' : W) × (c.get_amounts_out router amount (token_input ∷ token_output ∷ []) s
        ≡ (ok amounts_out, s'))
  pub second : get_elem? amounts_out 1 ≡ some out
  pub built : b ≡ record {
    swap_tx = record {
      router = router;
      amount_in = amount;
      amount_out_min = amount_out_min_of out;
      path = token_input ∷ token_output ∷ [];
      to = beneficiary;
      deadline = now + 1200;
      gas_limit = 250000;
    };
    approve_tx = approve_of token_input router allowed amount;
  }

approve-cases :
    (token router : String) (allowed amount : ℕ)
    → ((amount ≤ allowed) × (approve_of token router allowed amount ≡ none))
      ⊎ ((allowed < amount)
          × (approve_of token router allowed amount
              ≡ some (record { token = token; spender = router; amount = amount })))
unfolding approve_of
approve-cases token router allowed amount = elim (Bool-cases (ltb allowed amount)) [
  | inl less ↦ inr (ltb→lt _ _ less, rw less)
  | inr enough ↦ inl (ground arith, rw enough)
]

module _ {W : Type 0} (c : Contracts W) where
  build-Quoted :
      (router token_input token_output amount_in beneficiary : String) (s s' : W) (b : Built)
      → build_uniswap_swap_tx c router token_input token_output amount_in beneficiary s ≡ (ok b, s')
      → Quoted c router token_input token_output beneficiary b
  unfolding build_uniswap_swap_tx
  build-Quoted router token_input token_output amount_in beneficiary s s' b e =
      let (decimals, s1, e1, r1) = bind-eq-ok _ _ _ e in
      let (amount, s2, e2, r2) = bind-eq-ok _ _ _ r1 in
      let (allowed, s3, e3, r3) = bind-eq-ok _ _ _ r2 in
      let (outs, s4, e4, r4) = bind-eq-ok _ _ _ r3 in
      let (out, s5, e5, r5) = bind-eq-ok _ _ _ r4 in
      let (now, s6, e6, r6) = bind-eq-ok _ _ _ r5 in
      record {
        amount = amount;
        allowed = allowed;
        amounts_out = outs;
        out = out;
        now = now;
        asked = (s2, s3, e3);
        quoted = (s3, s4, e4);
        second = (required-eq-ok (get_elem? outs 1) _ s4 e5).0;
        built = pure-eq-ok _ s6 r6;
      }

  -- A swap that is built pays its beneficiary in the output token of the path, from an amount that
  -- the router was quoted for; and its approval, where there is one, is for that router and just
  -- that amount of the input token. There is none exactly where the allowance that was read
  -- covers the amount.
  pub build_approves :
      (router token_input token_output amount_in beneficiary : String) (s s' : W) (b : Built)
      → build_uniswap_swap_tx c router token_input token_output amount_in beneficiary s ≡ (ok b, s')
      → (allowed : ℕ) × (t t' : W) × (c.allowance token_input beneficiary router t
          ≡ (ok allowed, t'))
        × (b.swap_tx.path ≡ token_input ∷ token_output ∷ [])
        × (b.swap_tx.to ≡ beneficiary)
        × (((b.swap_tx.amount_in ≤ allowed) × (b.approve_tx ≡ none))
            ⊎ ((allowed < b.swap_tx.amount_in)
                × (b.approve_tx
                    ≡ some (record {
                      token = token_input;
                      spender = b.swap_tx.router;
                      amount = b.swap_tx.amount_in;
                    }))))
  build_approves router token_input token_output amount_in beneficiary s s' b e =
      let q = build-Quoted router token_input token_output amount_in beneficiary s s' b e in
      rw q.built (
        q.allowed,
        q.asked.0,
        q.asked.1,
        q.asked.2,
        refl,
        refl,
        approve-cases token_input router q.allowed q.amount,
      )

  -- The least output that the swap accepts is at most 3 parts in 100 of the output that was quoted,
  -- and more than 3 parts in 100 less one: the slippage that is tolerated is 97 in 100, and not the
  -- 3 in 100 that the configuration names.
  pub build_slippage :
      (router token_input token_output amount_in beneficiary : String) (s s' : W) (b : Built)
      → build_uniswap_swap_tx c router token_input token_output amount_in beneficiary s ≡ (ok b, s')
      → (amounts : List ℕ) × (out : ℕ) × (t t' : W) × (c.get_amounts_out router b.swap_tx.amount_in
            (token_input ∷ token_output ∷ [])
            t
          ≡ (ok amounts, t'))
        × (get_elem? amounts 1 ≡ some out)
        × (b.swap_tx.amount_out_min * 100 ≤ out * 3)
        × (out * 3 < b.swap_tx.amount_out_min * 100 + 100)
  unfolding amount_out_min_of
  build_slippage router token_input token_output amount_in beneficiary s s' b e =
      let q = build-Quoted router token_input token_output amount_in beneficiary s s' b e in
      rw q.built (
        q.amounts_out,
        q.out,
        q.quoted.0,
        q.quoted.1,
        q.quoted.2,
        q.second,
        omega arith,
        omega arith,
      )
