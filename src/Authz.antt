-- ===== src/Authz.antt =====
-- postgres/authz.ts and util/authz.ts: the index of the live authz grants, and the message type
-- that an authorization grants.
pub mod Events
pub mod ExecChain
pub mod Order
pub mod Records
use ixo_blocksync.Base.{
  ℕ, Bool, true, false, String, Option, none, some, List, [], ◌∷◌, leb, length, keep_if, ◌==◌, ◌+◌,
  string_eq, pair_eq, if◌then◌else◌,
}
use ixo_blocksync.Base.Table.{Table, lookup, upsert, update, delete, delete_where}
use ixo_blocksync.Pg.{Exec, Action, query}

-- (granter, grantee, msg_type_url)
abbrev pub GrantKey : Type 0
GrantKey = String × (String × String)

-- a row of authz_grant beside its key; times are milliseconds, a payload is its JSON text
pub record Grant : Type 0 where
  pub authorization_type : Option String
  pub authorization : Option String
  pub expiration : Option ℕ
  pub entity_id : Option String
  pub granted_at_height : ℕ
  pub granted_at_time : ℕ
  pub granted_tx_hash : Option String

abbrev pub AuthzDb : Type 0
AuthzDb = Table GrantKey Grant

-- upsertSql: every column beside the key takes the new value
unfoldable pub upsert_authz_grant : GrantKey → Grant → Action AuthzDb
upsert_authz_grant key g = query (λ t. (tt, upsert key g (λ old. g) t))

-- deleteSql
pub delete_authz_grant : GrantKey → Action AuthzDb
delete_authz_grant key = query (λ t. (tt, delete key t))

-- WHERE expiration IS NOT NULL AND expiration <= $1
unfoldable pub is_expired : ℕ → Grant → Bool
is_expired time g = elim g.expiration [ none ↦ false | some at ↦ leb at time ]

-- expireSql and its row count
unfoldable pub delete_expired_authz_grants : ℕ → Exec AuthzDb ℕ
delete_expired_authz_grants time =
    query
      (λ t. (length (keep_if (λ row. is_expired time row.1) t), delete_where (is_expired time) t))

-- the payload that the chain has for a grant
pub record Payload : Type 0 where
  pub authorization_type : String
  pub authorization : String
  pub expiration : Option ℕ

-- SET of refreshSql
abbrev pub refreshed : Payload → Grant → Grant
refreshed p g = record g {
  authorization_type = some p.authorization_type;
  authorization = some p.authorization;
  expiration = p.expiration;
}

-- the row count of an UPDATE by the primary key
abbrev pub affected : Option Grant → ℕ
affected none = 0
affected (some g) = 1

-- refreshSql and its row count
pub refresh_authz_grant_payload : GrantKey → Payload → Exec AuthzDb ℕ
refresh_authz_grant_payload key p =
    query (λ t. (affected (lookup key t), update key (refreshed p) t))

-- What `msgTypeUrlForAuthorization` reads of a decoded authorization; `authorization_type` is the
-- text that `String(…)` makes of either spelling of the field.
pub record Decoded : Type 0 where
  pub msg : Option String
  pub authorization_type : Option String

abbrev pub stake_authz_msg_by_type : Table String String
stake_authz_msg_by_type =
    ("AUTHORIZATION_TYPE_DELEGATE", "/cosmos.staking.v1beta1.MsgDelegate")
    ∷ ("AUTHORIZATION_TYPE_UNDELEGATE", "/cosmos.staking.v1beta1.MsgUndelegate")
    ∷ ("AUTHORIZATION_TYPE_REDELEGATE", "/cosmos.staking.v1beta1.MsgBeginRedelegate")
    ∷ (
      "AUTHORIZATION_TYPE_CANCEL_UNBONDING_DELEGATION",
      "/cosmos.staking.v1beta1.MsgCancelUnbondingDelegation",
    )
    ∷ ("1", "/cosmos.staking.v1beta1.MsgDelegate")
    ∷ ("2", "/cosmos.staking.v1beta1.MsgUndelegate")
    ∷ ("3", "/cosmos.staking.v1beta1.MsgBeginRedelegate")
    ∷ ("4", "/cosmos.staking.v1beta1.MsgCancelUnbondingDelegation")
    ∷ []

abbrev pub fixed_msg_type_by_authorization : Table String String
fixed_msg_type_by_authorization =
    ("/cosmos.bank.v1beta1.SendAuthorization", "/cosmos.bank.v1beta1.MsgSend")
    ∷ ("/cosmwasm.wasm.v1.StoreCodeAuthorization", "/cosmwasm.wasm.v1.MsgStoreCode")
    ∷ ("/cosmwasm.wasm.v1.ContractExecutionAuthorization", "/cosmwasm.wasm.v1.MsgExecuteContract")
    ∷ ("/cosmwasm.wasm.v1.ContractMigrationAuthorization", "/cosmwasm.wasm.v1.MsgMigrateContract")
    ∷ (
      "/ibc.applications.transfer.v1.TransferAuthorization",
      "/ibc.applications.transfer.v1.MsgTransfer",
    )
    ∷ ("/ixo.claims.v1beta1.SubmitClaimAuthorization", "/ixo.claims.v1beta1.MsgSubmitClaim")
    ∷ ("/ixo.claims.v1beta1.EvaluateClaimAuthorization", "/ixo.claims.v1beta1.MsgEvaluateClaim")
    ∷ ("/ixo.claims.v1beta1.WithdrawPaymentAuthorization", "/ixo.claims.v1beta1.MsgWithdrawPayment")
    ∷ (
      "/ixo.claims.v1beta1.CreateClaimAuthorizationAuthorization",
      "/ixo.claims.v1beta1.MsgCreateClaimAuthorization",
    )
    ∷ ("/ixo.token.v1beta1.MintAuthorization", "/ixo.token.v1beta1.MsgMintToken")
    ∷ []

-- `msgTypeUrlForAuthorization`
unfoldable pub msg_type_url_for_authorization : String → Decoded → Option String
msg_type_url_for_authorization authorization_type decoded =
    if authorization_type == "/cosmos.authz.v1beta1.GenericAuthorization"
    then elim decoded.msg [ none ↦ none | some m ↦ (if m == "" then none else some m) ]
    else if authorization_type == "/cosmos.staking.v1beta1.StakeAuthorization"
    then elim decoded.authorization_type [ none ↦ none | some t ↦ lookup t stake_authz_msg_by_type ]
    else lookup authorization_type fixed_msg_type_by_authorization
