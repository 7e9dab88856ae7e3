-- ===== src/Tools/Uniswap.antt =====
-- UniswapTool of agent/src/common/tools/uniswap.ts. Addresses are opaque texts in the builder of swaps
-- and code units in the signer; what ethers encodes of a transaction is a parameter.
pub mod Remote
mod Examples
use Prim.Native.String
use freysa_spark_hackathon.Common.{
  Option, none, some, List, [], ◌∷◌, String, Run, pure, throw, ◌>>=◌, ◌>>◌, Text, or_else,
}
use freysa_spark_hackathon.Transactions.Swap.{
  Contracts, ApproveTx, SwapTx, Built, build_uniswap_swap_tx,
}
use freysa_spark_hackathon.Transactions.GrpcClient.{KeyPoolService}
use freysa_spark_hackathon.Transactions.SafeSignature.{Viem}
use freysa_spark_hackathon.Transactions.Signer.{
  Signer, Ethers, SafeKits, Broadcast, get_wallet_address, sign_transaction_and_broadcast,
}

pub record UniswapInput : Type 0 where
  pub token_input : String
  pub token_output : String
  -- the text of the number
  pub amount_in : String

pub record UniswapTool : Type 0 where
  pub saf_signer : Signer
  pub uniswap_router_address : String

-- The constructor.
unfoldable pub new_uniswap_tool : Signer → Option String → UniswapTool
new_uniswap_tool signer router = record {
  saf_signer = signer;
  uniswap_router_address = or_else router "0x4752ba5DBc23f44D87826276BF6Fd6b1C372aD24";
}

-- The `to` and the `data` of a populated transaction, and a text of each kind as the other.
pub record Encoding (Receipt : Type 0) : Type 0 where
  pub approve_to : ApproveTx → Text
  pub approve_data : ApproveTx → Text
  pub swap_to : SwapTx → Text
  pub swap_data : SwapTx → Text
  pub address_text : Text → String
  pub broadcast_text : Broadcast Receipt → String

abbrev pub zero_value : Option Text
zero_value = some (b'0' ∷ [])

-- `if (!walletAddress) throw`.
abbrev pub wallet_or_throw : {W : Type 0} → Text → Run W Text
wallet_or_throw [] = throw "Failed to get wallet address"
wallet_or_throw (c ∷ address) = pure (c ∷ address)

abbrev pub report : UniswapInput → String → String
report input hash = String.◌++◌ "Intented to swap  " (
    String.◌++◌ input.amount_in (
      String.◌++◌ "  of " (
        String.◌++◌ input.token_input (
          String.◌++◌ " for " (
            String.◌++◌ input.token_output
              (String.◌++◌ "\n\n    txHash: " (String.◌++◌ hash "\n    ")))))))

module _ {W : Type 0} (contracts : Contracts W) (ethers : Ethers W) (kits : SafeKits W)
    (service : KeyPoolService W) (viem : Viem) (encoding : Encoding ethers.Receipt) where
  unfoldable pub broadcast_approval : Signer → Option ApproveTx → Run W (Unit {0})
  broadcast_approval signer none = pure tt
  broadcast_approval signer (some tx) = do
    sent ←
        sign_transaction_and_broadcast ethers kits service viem signer (encoding.approve_to tx)
          (encoding.approve_data tx) zero_value none
    pure tt

  unfoldable pub broadcast_swap : Signer → SwapTx → Run W (Broadcast ethers.Receipt)
  broadcast_swap signer tx =
      sign_transaction_and_broadcast ethers kits service viem signer (encoding.swap_to tx)
        (encoding.swap_data tx) zero_value none

  unfoldable pub execute_swap : UniswapTool → UniswapInput → Run W String
  execute_swap tool input = do
    found ← get_wallet_address ethers kits service viem tool.saf_signer none
    address ← wallet_or_throw found
    built ←
        build_uniswap_swap_tx contracts tool.uniswap_router_address input.token_input
          input.token_output input.amount_in (encoding.address_text address)
    broadcast_approval tool.saf_signer built.approve_tx
    hash ← broadcast_swap tool.saf_signer built.swap_tx
    pure (report input (encoding.broadcast_text hash))
