-- ===== src/WasmCodeIds.antt =====
-- constants/wasm_code_ids.ts: the code ids of the contracts on the three networks. All have the
-- category "daodao"; the paths of their files, which nothing reads, are left out.
use ixo_blocksync.Base.{ℕ, String, List, [], ◌∷◌, ◌++◌, nat_eq, ltb, keep_if, map}
use ixo_blocksync.Base.Table.{Table, upsert}

-- NETWORK, which is checked to be one of the three at start
pub data Network : Type 0 where
  devnet : Network
  testnet : Network
  mainnet : Network

pub record CodeItem : Type 0 where
  pub name : String
  pub on_devnet : ℕ
  pub on_testnet : ℕ
  pub on_mainnet : ℕ

abbrev pub code_item : String → ℕ → ℕ → ℕ → CodeItem
code_item name d t m = record { name = name; on_devnet = d; on_testnet = t; on_mainnet = m }

-- `item.code[NETWORK]`
unfoldable pub code_on : Network → CodeItem → ℕ
code_on devnet item = item.on_devnet
code_on testnet item = item.on_testnet
code_on mainnet item = item.on_mainnet

-- the first part of WASM_CODE_IDS, the contracts of v2.0.3
abbrev pub wasm_code_ids_v203 : List CodeItem
wasm_code_ids_v203 =
    code_item "dao_core" 3 3 3
    ∷ code_item "cw_admin_factory" 4 4 4
    ∷ code_item "cw_fund_distributor" 5 5 5
    ∷ code_item "cw_payroll_factory" 6 6 6
    ∷ code_item "cw_token_swap" 7 7 7
    ∷ code_item "cw_vesting" 8 8 8
    ∷ code_item "dao_migrator" 9 9 9
    ∷ code_item "dao_pre_propose_approval_single" 10 10 10
    ∷ code_item "dao_pre_propose_approver" 11 11 11
    ∷ code_item "dao_pre_propose_multiple" 12 12 12
    ∷ code_item "dao_pre_propose_single" 13 13 13
    ∷ code_item "dao_proposal_condorcet" 14 14 14
    ∷ code_item "dao_proposal_multiple" 15 15 15
    ∷ code_item "dao_proposal_single" 16 16 16
    ∷ code_item "cw20_stake" 17 17 17
    ∷ code_item "cw20_stake_external_rewards" 18 18 18
    ∷ code_item "cw20_stake_reward_distributor" 19 19 19
    ∷ code_item "dao_voting_cw4" 20 20 20
    ∷ code_item "dao_voting_cw20_staked" 21 21 21
    ∷ code_item "dao_voting_cw721_staked" 22 22 22
    ∷ code_item "dao_voting_native_staked" 23 23 23
    ∷ code_item "cw4_group" 24 24 24
    ∷ code_item "cw20_base" 25 25 25
    ∷ code_item "cw721_base" 26 26 26
    ∷ code_item "wasmswap" 27 27 27
    ∷ []

-- the second part, the contracts of v2.7.1
abbrev pub wasm_code_ids_v271 : List CodeItem
wasm_code_ids_v271 =
    code_item "dao_core" 88 52 51
    ∷ code_item "dao_proposal_single" 89 53 52
    ∷ code_item "dao_pre_propose_single" 90 54 53
    ∷ code_item "dao_voting_cw4" 91 55 54
    ∷ code_item "cw4_group" 92 56 55
    ∷ code_item "dao_proposal_multiple" 93 57 56
    ∷ code_item "dao_pre_propose_multiple" 94 58 57
    ∷ code_item "dao_pre_propose_approval_single" 95 59 58
    ∷ code_item "dao_pre_propose_approver" 96 60 59
    ∷ code_item "dao_pre_propose_approval_multiple" 97 61 60
    ∷ code_item "dao_voting_cw20_staked" 98 62 61
    ∷ code_item "cw20_stake" 99 63 62
    ∷ code_item "cw20_base" 100 64 63
    ∷ code_item "dao_voting_cw721_staked" 101 65 64
    ∷ code_item "cw721_base" 102 66 65
    ∷ code_item "cw_admin_factory" 103 67 66
    ∷ code_item "cw_vesting" 104 68 67
    ∷ code_item "cw_payroll_factory" 105 69 68
    ∷ code_item "dao_rewards_distributor" 106 70 69
    ∷ code_item "dao_vote_delegation" 107 71 70
    ∷ code_item "cw20_stake_external_rewards" 108 72 71
    ∷ code_item "cw20_stake_reward_distributor" 109 73 72
    ∷ []

abbrev pub wasm_code_ids : List CodeItem
wasm_code_ids = wasm_code_ids_v203 ++ wasm_code_ids_v271

-- `new Map(entries)`: an entry replaces the value of an earlier one with its key.
unfoldable pub map_of : List (ℕ × String) → Table ℕ String → Table ℕ String
map_of [] t = t
map_of ((code, name) ∷ entries) t = map_of entries (upsert code name (λ old. name) t)

-- DAODAO_CONTRACT_CODE_IDS, with the code ids that are not 0
unfoldable pub daodao_contract_code_ids : Network → Table ℕ String
unfolding map_of code_on
daodao_contract_code_ids network =
    map_of
      (map (λ item. (code_on network item, item.name))
        (keep_if (λ item. ltb 0 (code_on network item)) wasm_code_ids))
      []
