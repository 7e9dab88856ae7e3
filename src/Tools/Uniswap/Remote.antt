-- ===== src/Tools/Uniswap/Remote.antt =====
-- The tool with a signer whose key is held by the key pool service.
use freysa_spark_hackathon.Common.{◌≡◌, refl, Option, none, [], String, ok, err, bind-err}
use freysa_spark_hackathon.Transactions.Swap.{Contracts}
use freysa_spark_hackathon.Transactions.GrpcClient.{KeyPoolService}
use freysa_spark_hackathon.Transactions.SafeSignature.{Viem}
use freysa_spark_hackathon.Transactions.Signer.{
  SignerConfig, Signer, new_signer, Ethers, SafeKits, no_index, present_index,
}
use freysa_spark_hackathon.Transactions.Signer.KeyIndex.{IsRemote, remote_needs_index}
use freysa_spark_hackathon.Tools.Uniswap.{UniswapInput, new_uniswap_tool, Encoding, execute_swap}

module _ {W : Type 0} (contracts : Contracts W) (ethers : Ethers W) (kits : SafeKits W)
    (service : KeyPoolService W) (viem : Viem) (encoding : Encoding ethers.Receipt) where
  -- With a signer whose key is held by the key pool service the tool throws for the missing key index on
  -- every input, before it reads or sends anything.
  pub execute_swap_remote :
      (config : SignerConfig) (signer : Signer) (router : Option String) (input : UniswapInput)
      (w : W)
      → IsRemote config
      → new_signer config ≡ ok signer
      → execute_swap contracts ethers kits service viem encoding
          (new_uniswap_tool signer router)
          input
          w
        ≡ (err no_index, w)
  unfolding execute_swap new_uniswap_tool present_index
  execute_swap_remote config signer router input w remote made =
      bind-err _ _ w
        (remote_needs_index ethers kits service viem config signer none [] [] [] none w remote made
          refl).1
