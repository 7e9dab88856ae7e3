-- ===== src/Transactions/Swap.antt =====
-- buildUniswapSwapTx of agent/src/common/transactions/swap.ts. The token and router contracts, the
-- decimal parser of ethers and the clock are parameters; amounts are the natural numbers of a BigInt.
pub mod Slippage
mod Examples
use freysa_spark_hackathon.Common.{
  ℕ, ◌+◌, ◌*◌, ◌/◌, Option, none, some, List, [], ◌∷◌, String, ltb, if◌then◌else◌, get_elem?,
  Result, ok, err, Run, pure, required, ◌>>=◌,
}

-- The calls of one run, over the state `W` of the chain.
pub record Contracts (W : Type 0) : Type 0 where
  pub decimals : String → Run W ℕ
  -- `ethers.parseUnits(amountIn.toString(), decimals)` throws on a text that is no decimal number
  pub parse_units : String → ℕ → Result ℕ
  -- token, owner, spender
  pub allowance : String → String → String → Run W ℕ
  -- router, amount, path
  pub get_amounts_out : String → ℕ → List String → Run W (List ℕ)
  -- `Math.floor(Date.now() / 1000)`
  pub now_seconds : Run W ℕ

-- `tokenIn.approve.populateTransaction(spender, amount)`.
pub record ApproveTx : Type 0 where
  pub token : String
  pub spender : String
  pub amount : ℕ

-- `router.swapExactTokensForTokens.populateTransaction(…)`.
pub record SwapTx : Type 0 where
  pub router : String
  pub amount_in : ℕ
  pub amount_out_min : ℕ
  pub path : List String
  pub to : String
  pub deadline : ℕ
  pub gas_limit : ℕ

pub record Built : Type 0 where
  pub swap_tx : SwapTx
  pub approve_tx : Option ApproveTx

-- `BigInt(Math.floor(config.slippage * 100))` with a slippage of 0.03.
abbrev pub percentage : ℕ
percentage = 3

-- `(amountsOut[1] * percentage) / BigInt(100)`.
unfoldable pub amount_out_min_of : ℕ → ℕ
amount_out_min_of out = out * percentage / 100

unfoldable pub approve_of : String → String → ℕ → ℕ → Option ApproveTx
approve_of token router allowed amount =
    if ltb allowed amount
    then some (record { token = token; spender = router; amount = amount })
    else none

module _ {W : Type 0} (c : Contracts W) where
  unfoldable pub build_uniswap_swap_tx : String → String → String → String → String → Run W Built
  unfolding amount_out_min_of approve_of
  build_uniswap_swap_tx router_address token_input token_output amount_in beneficiary = do
    decimals ← c.decimals token_input
    amount ← (λ s. (c.parse_units amount_in decimals, s))
    allowed ← c.allowance token_input beneficiary router_address
    let approve = approve_of token_input router_address allowed amount
    let path = token_input ∷ token_output ∷ []
    amounts_out ← c.get_amounts_out router_address amount path
    out ← required (get_elem? amounts_out 1) "Cannot mix BigInt and other types"
    now ← c.now_seconds
    pure (record {
      swap_tx = record {
        router = router_address;
        amount_in = amount;
        amount_out_min = amount_out_min_of out;
        path = path;
        to = beneficiary;
        deadline = now + 60 * 20;
        gas_limit = 250000;
      };
      approve_tx = approve;
    })
