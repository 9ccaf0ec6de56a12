-- ===== src/Dao/Dispatch.antt =====
-- `processDaoEvent` and `processDaodaoInstantiateEvent` of
-- sync_handlers/event_data_sync_wasm_dao.ts: the guard of the cutoff height, the handler of each
-- type of contract, and the errors that do not end the block, by `isDeterministicWasmParseError` of
-- util/archive-api.ts. `includes` is that of the language, on a text and a part.
use ixo_blocksync.Base.{
  ℕ, Bool, false, String, List, [], ◌∷◌, ◌==◌, ◌&&◌, ◌||◌, string_eq, if◌then◌else◌,
}
use ixo_blocksync.Numbers.{Arithmetic}
use ixo_blocksync.Pg.{
  Error, thrown, constraint_violation, in_failed_transaction, Result, ok, err, Tx, Action, pure,
  ◌>>=◌, ◌>>◌,
}
use ixo_blocksync.Dao.{DaoDb}
use ixo_blocksync.Dao.VotingSql.{ensure_dao_cw4_group_contract, ensure_dao_cw20_staking_contract}
use ixo_blocksync.Dao.Archive.{Archive, DaoEvent, ask, is_daodao_indexable}
use ixo_blocksync.Dao.CoreEvents.{process_dao_core_event}
use ixo_blocksync.Dao.ProposalEvents.{process_dao_proposal_event}
use ixo_blocksync.Dao.PreProposeEvents.{process_dao_pre_propose_event}
use ixo_blocksync.Dao.VotingEvents.{process_dao_voting_event}
use ixo_blocksync.Dao.StakeEvents.{
  process_cw20_stake_event, process_cw4_group_event, refresh_members,
}

abbrev pub is_one_of : List String → String → Bool
is_one_of [] type = false
is_one_of (t ∷ ts) type = type == t || is_one_of ts type

abbrev pub proposal_types : List String
proposal_types = "dao_proposal_single" ∷ "dao_proposal_multiple" ∷ "dao_proposal_condorcet" ∷ []

abbrev pub voting_types : List String
voting_types =
    "dao_voting_cw20_staked" ∷ "dao_voting_cw721_staked" ∷ "dao_voting_cw4"
    ∷ "dao_voting_native_staked" ∷ []

abbrev pub pre_propose_types : List String
pre_propose_types =
    "dao_pre_propose_single" ∷ "dao_pre_propose_multiple" ∷ "dao_pre_propose_approval_single"
    ∷ "dao_pre_propose_approval_multiple" ∷ "dao_pre_propose_approver" ∷ []

-- The messages of the database's own errors hold none of the three parts.
unfoldable pub is_deterministic_wasm_parse_error : (String → String → Bool) → Error → Bool
is_deterministic_wasm_parse_error includes constraint_violation = false
is_deterministic_wasm_parse_error includes in_failed_transaction = false
is_deterministic_wasm_parse_error includes (thrown message) =
    includes message "archive query non-retriable"
    && (includes message "query wasm contract failed" && includes message "Error parsing into type")

-- the `catch` of `processDaoEvent`
unfoldable pub skipped :
    (String → String → Bool) → Result (Unit {0}) × Tx DaoDb → Result (Unit {0}) × Tx DaoDb
unfolding is_deterministic_wasm_parse_error
skipped includes (ok a, tx) = (ok a, tx)
skipped includes (err e, tx) =
    (if is_deterministic_wasm_parse_error includes e then ok tt else err e, tx)

module _ (js : Arithmetic) (archive : Archive) where
  -- the switch on the type of the contract
  unfoldable pub handle_dao_event : DaoEvent → Action DaoDb
  unfolding pure
  handle_dao_event ev =
      if ev.contract_type == "dao_core"
      then process_dao_core_event js archive ev
      else if is_one_of proposal_types ev.contract_type
      then process_dao_proposal_event js archive ev
      else if is_one_of voting_types ev.contract_type
      then process_dao_voting_event js archive ev
      else if is_one_of pre_propose_types ev.contract_type
      then process_dao_pre_propose_event js archive ev
      else if ev.contract_type == "cw20_stake"
      then process_cw20_stake_event js archive ev
      else if ev.contract_type == "cw4_group"
      then process_cw4_group_event js archive ev
      else pure tt

  unfoldable pub process_dao_event : ℕ → (String → String → Bool) → DaoEvent → Action DaoDb
  unfolding skipped pure is_daodao_indexable
  process_dao_event cutoff includes ev tx =
      if is_daodao_indexable cutoff ev.block_height
      then skipped includes (handle_dao_event ev tx)
      else pure tt tx

  -- the switch of `processDaodaoInstantiateEvent`
  unfoldable pub handle_instantiate : String → String → ℕ → Action DaoDb
  unfolding ask pure ◌>>=◌
  handle_instantiate address type height =
      if type == "cw4_group"
      then (do
        ensure_dao_cw4_group_contract address
        members ← ask (archive.cw4_members height address)
        refresh_members address members)
      else if type == "cw20_stake"
      then ensure_dao_cw20_staking_contract address
      else pure tt

  unfoldable pub process_daodao_instantiate_event : ℕ → String → String → ℕ → Action DaoDb
  unfolding pure handle_instantiate is_daodao_indexable
  process_daodao_instantiate_event cutoff address type height =
      if is_daodao_indexable cutoff height then handle_instantiate address type height else pure tt
