-- ===== src/Claims/Collections.antt =====
-- postgres/claim.ts: the statements on collections, the budgets of members and the deposits of agents,
-- with their cases of sync_handlers/event_data_sync.ts. Coins are the texts of `JSON.stringify`.
use ixo_blocksync.Base.{
  ℕ, String, Option, none, some, List, [], ◌∷◌, ◌==◌, ◌&&◌, string_eq, pair_eq, if◌then◌else◌, take,
  map, not,
}
use ixo_blocksync.Base.Table.{Table, lookup, upsert, update, delete}
use ixo_blocksync.Pg.{Exec, Action, query}
use ixo_blocksync.Claims.{Claim, ClaimDb, is_there}
use ixo_blocksync.Claims.Collection.{Nanos, Duration, ClaimCollection, default, duration_to_nanos}

-- `createClaimCollection` and `updateClaimCollection`, which are the same upsert of all columns
unfoldable pub upsert_claim_collection : String × ClaimCollection → Action ClaimDb
upsert_claim_collection (id, row) =
    query (λ s. (tt, record s { collections = upsert id row (λ old. row) s.collections }))

abbrev pub admin_of : Option ClaimCollection → Option String
admin_of none = none
admin_of (some row) = some row.admin

unfoldable pub get_collection_admin : String → Exec ClaimDb (Option String)
get_collection_admin id = query (λ s. (admin_of (lookup id s.collections), s))

abbrev pub entity_of : Option ClaimCollection → Option String
entity_of none = none
entity_of (some row) = some row.entity

unfoldable pub get_collection_entity : String → Exec ClaimDb (Option String)
get_collection_entity id = query (λ s. (entity_of (lookup id s.collections), s))

-- the ids of the claims of a collection without a schema type
unfoldable pub untyped : String → Table String Claim → List String
untyped collection [] = []
untyped collection ((id, c) ∷ cs) =
    let rest = untyped collection cs in
    if c.collection_id == collection && not (is_there c.schema_type) then id ∷ rest else rest

-- `getCollectionClaimsTypeNull`, of a collection that has a row, with its LIMIT
unfoldable pub get_collection_claims_type_null : String → ℕ → Exec ClaimDb (List String)
unfolding untyped
get_collection_claims_type_null collection limit = query (λ s. (
  if is_there (lookup collection s.collections)
      then take limit (untyped collection s.claims)
      else [],
  s,
))

-- `updateClaimSchema`
unfoldable pub update_claim_schema : String → String → Action ClaimDb
update_claim_schema id schema = query (λ s. (
  tt,
  record s { claims = update id (λ row. record row { schema_type = some schema }) s.claims },
))

-- `listAllCollectionIds`
unfoldable pub list_all_collection_ids : Exec ClaimDb (List String)
list_all_collection_ids = query (λ s. (map (λ row. row.0) s.collections, s))

-- a row of "MemberBudget" beside its key
pub record MemberBudget : Type 0 where
  pub period_ns : Nanos
  pub period_spend_limit : String
  pub period_spent : String
  pub period_cw20_spend_limit : Option String
  pub period_cw20_spent : Option String
  pub period_reset_at : ℕ
  pub updated_at_height : Option ℕ
  pub updated_at : Option ℕ

-- a row of "AgentDepositBalance" beside its key
pub record AgentDepositBalance : Type 0 where
  pub amount : String
  pub withdrawable_at : ℕ
  pub updated_at_height : Option ℕ
  pub updated_at : Option ℕ

pub record FundsDb : Type 0 where
  pub budgets : Table (String × String) MemberBudget
  pub deposits : Table (String × String) AgentDepositBalance

unfoldable pub upsert_member_budget : String × String → MemberBudget → Action FundsDb
upsert_member_budget key row =
    query (λ s. (tt, record s { budgets = upsert key row (λ old. row) s.budgets }))

unfoldable pub delete_member_budget : String × String → Action FundsDb
delete_member_budget key = query (λ s. (tt, record s { budgets = delete key s.budgets }))

unfoldable pub upsert_agent_deposit_balance : String × String → AgentDepositBalance → Action FundsDb
upsert_agent_deposit_balance key row =
    query (λ s. (tt, record s { deposits = upsert key row (λ old. row) s.deposits }))

unfoldable pub delete_agent_deposit_balance : String × String → Action FundsDb
delete_agent_deposit_balance key = query (λ s. (tt, record s { deposits = delete key s.deposits }))

-- `MemberBudgetSDKType` beside its key
pub record BudgetDoc : Type 0 where
  pub period : Duration
  pub period_spend_limit : Option String
  pub period_spent : Option String
  pub period_cw20_spend_limit : Option String
  pub period_cw20_spent : Option String
  pub period_reset_at : Option ℕ

-- The events of budgets and deposits; those of a creation and of an update are handled alike.
pub data FundsEvent : Type 0 where
  budget_set : String × String → BudgetDoc → FundsEvent
  budget_removed : String × String → FundsEvent
  deposit_set : String × String → Option String → Option ℕ → FundsEvent
  deposit_removed : String × String → FundsEvent

-- the cases of `syncEventData` on budgets and deposits, in a block of this height and time
unfoldable pub sync_funds_event : (String → Option (ℕ × ℕ)) → ℕ → ℕ → FundsEvent → Action FundsDb
unfolding upsert_member_budget delete_member_budget upsert_agent_deposit_balance
    delete_agent_deposit_balance duration_to_nanos
sync_funds_event as_seconds height time (budget_set key doc) = upsert_member_budget key (record {
  period_ns = duration_to_nanos as_seconds doc.period;
  period_spend_limit = default "[]" doc.period_spend_limit;
  period_spent = default "[]" doc.period_spent;
  period_cw20_spend_limit = doc.period_cw20_spend_limit;
  period_cw20_spent = doc.period_cw20_spent;
  period_reset_at = default time doc.period_reset_at;
  updated_at_height = some height;
  updated_at = some time;
})
sync_funds_event as_seconds height time (budget_removed key) = delete_member_budget key
sync_funds_event as_seconds height time (deposit_set key amount withdrawable_at) =
    upsert_agent_deposit_balance key (record {
      amount = default "[]" amount;
      withdrawable_at = default time withdrawable_at;
      updated_at_height = some height;
      updated_at = some time;
    })
sync_funds_event as_seconds height time (deposit_removed key) = delete_agent_deposit_balance key
