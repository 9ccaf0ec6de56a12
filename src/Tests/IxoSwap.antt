-- ===== src/Tests/IxoSwap.antt =====
-- The theorems on the swap pools at one swap.
use ixo_blocksync.Base.{
  ◌≡◌, refl, ℕ, false, none, some, [], ◌∷◌, ◌==◌, arith, nat_eq, string_eq, pair_eq, if◌then◌else◌,
}
use ixo_blocksync.Base.Table.{lookup}
use ixo_blocksync.Pg.{ok, running}
use ixo_blocksync.Sync.Interface.{EventCore}
use ixo_blocksync.Attributes.{get_wasm_attr}
use ixo_blocksync.IxoSwap.{IxoSwap, SwapDb, Decimals}
use ixo_blocksync.IxoSwap.History.{Traded, run_swaps, run_swaps-Traded}

-- prices as pairs of a numerator and a denominator, and two numbers that can be read
abbrev fractions : Decimals (ℕ × ℕ)
fractions = record {
  parse = λ s. if s == "90" then some 90 else if s == "112" then some 112 else none;
  zero_price = (0, 1);
  div = λ a b. (a, b);
}

abbrev pool : IxoSwap
pool = record {
  lp_address = "lp";
  token_1155_denom = "carbon";
  token_1155_reserve = 100;
  token_2_denom = "uixo";
  token_2_reserve = 100;
  protocol_fee_recipient = "";
  protocol_fee_percent = "0";
  lp_fee_percent = "0";
  max_slippage_percent = "1";
  frozen = false;
  owner = "ixo1owner";
  pending_owner = none;
}

abbrev pools : SwapDb (ℕ × ℕ)
pools = record { swaps = ("ixo1pool", pool) ∷ ("ixo1other", pool) ∷ []; history = [] }

abbrev swap_event : EventCore
swap_event = record {
  type = "wasm";
  attributes =
      record { key = "token1155_reserve"; value = "90" }
      ∷ record { key = "token2_reserve"; value = "112" }
      ∷ [];
  transaction_hash = "AB";
}

run_swaps-Traded_example :
    (s' : SwapDb (ℕ × ℕ)) × (run_swaps fractions "ixo1pool" 60
        ((swap_event, (90, 112)) ∷ [])
        (running pools)
      ≡ (ok tt, running s'))
    × Traded fractions "ixo1pool" 60 ((swap_event, (90, 112)) ∷ []) pool pools s'
unfolding lookup get_wasm_attr
run_swaps-Traded_example =
    run_swaps-Traded fractions "ixo1pool" 60 ((swap_event, (90, 112)) ∷ []) pool pools
      ((refl, refl), tt) ((omega arith, omega arith), tt) refl
