-- ===== src/Transactions/Swap/Examples.antt =====
-- A swap built against fixed contracts.
use freysa_spark_hackathon.Common.{
  ℕ, ◌+◌, ◌*◌, ◌≤◌, ◌<◌, ◌≡◌, ◌⊎◌, refl, none, some, List, [], ◌∷◌, get_elem?, ok, pure, ◌>>=◌,
}
use freysa_spark_hackathon.Transactions.Swap.{Contracts, Built, build_uniswap_swap_tx}
use freysa_spark_hackathon.Transactions.Swap.Slippage.{build_approves, build_slippage}

-- No allowance yet, and a quote of 1000 for 500.
abbrev fixed : Contracts Unit
fixed = record {
  decimals = λ _. pure 2;
  parse_units = λ _ _. ok 500;
  allowance = λ _ _ _. pure 0;
  get_amounts_out = λ _ _ _. pure (500 ∷ 1000 ∷ []);
  now_seconds = pure 1000;
}

abbrev built : Built
built = record {
  swap_tx = record {
    router = "R";
    amount_in = 500;
    amount_out_min = 30;
    path = "A" ∷ "B" ∷ [];
    to = "me";
    deadline = 2200;
    gas_limit = 250000;
  };
  approve_tx = some (record { token = "A"; spender = "R"; amount = 500 });
}

build_run : build_uniswap_swap_tx fixed "R" "A" "B" "5" "me" tt ≡ (ok built, tt)
unfolding build_uniswap_swap_tx ◌>>=◌
build_run = refl

build_approves_example :
    (allowed : ℕ) × (t t' : Unit {0}) × (fixed.allowance "A" "me" "R" t ≡ (ok allowed, t'))
    × (built.swap_tx.path ≡ "A" ∷ "B" ∷ [])
    × (built.swap_tx.to ≡ "me")
    × (((built.swap_tx.amount_in ≤ allowed) × (built.approve_tx ≡ none))
        ⊎ ((allowed < built.swap_tx.amount_in)
            × (built.approve_tx
                ≡ some (record {
                  token = "A";
                  spender = built.swap_tx.router;
                  amount = built.swap_tx.amount_in;
                }))))
build_approves_example = build_approves fixed "R" "A" "B" "5" "me" tt tt built build_run

build_slippage_example :
    (amounts : List ℕ) × (out : ℕ) × (t t' : Unit {0}) × (fixed.get_amounts_out "R"
        built.swap_tx.amount_in
        ("A" ∷ "B" ∷ [])
        t
      ≡ (ok amounts, t'))
    × (get_elem? amounts 1 ≡ some out)
    × (built.swap_tx.amount_out_min * 100 ≤ out * 3)
    × (out * 3 < built.swap_tx.amount_out_min * 100 + 100)
build_slippage_example = build_slippage fixed "R" "A" "B" "5" "me" tt tt built build_run
