-- ===== src/Authz/Events.antt =====
-- The authz cases of sync_handlers/event_data_sync.ts and its `refreshConsumedGrant`. The
-- attributes come as `safeGet` reads them; the archive node is a parameter.
use ixo_blocksync.Base.{
  ℕ, Bool, false, String, Option, none, some, List, find, get_elem?, ◌==◌, ◌||◌, not, string_eq,
  pair_eq, if◌then◌else◌,
}
use ixo_blocksync.Pg.{ok, err, Action, pure, ◌>>=◌}
use ixo_blocksync.Authz.{
  GrantKey, Grant, AuthzDb, Payload, Decoded, upsert_authz_grant, delete_authz_grant,
  refresh_authz_grant_payload, msg_type_url_for_authorization,
}

-- A grant that the archive node knows.
pub record LiveGrant : Type 0 where
  pub payload : Payload
  pub decoded : Decoded

-- A message of a transaction: its type, and for a MsgGrant its payload as `decodeAuthorizationAny`
-- and `timestampToDate` give it.
pub record TxMessage : Type 0 where
  pub type_url : String
  pub authorization : Option (String × String)
  pub expiration : Option ℕ

pub record Transaction : Type 0 where
  pub hash : String
  pub messages : List TxMessage

pub record AuthzBlock : Type 0 where
  pub height : ℕ
  pub time : ℕ
  pub transactions : List Transaction

-- The events with what the handler reads of them.
pub data AuthzEvent : Type 0 where
  grant_authz : (key : GrantKey) (transaction_hash : String) (msg_index : ℕ) → AuthzEvent
  revoke_authz : GrantKey → AuthzEvent
  entity_authz_created :
      (granter grantee id transaction_hash : String) → (grant : Option LiveGrant) → AuthzEvent
  entity_authz_revoked : GrantKey → AuthzEvent

-- the row of `base`, with a payload where there is one
abbrev pub granted :
    AuthzBlock → String → Option String → Option String → Option ℕ → Option String → Grant
granted b hash type payload expiration entity = record {
  authorization_type = type;
  authorization = payload;
  expiration = expiration;
  entity_id = entity;
  granted_at_height = b.height;
  granted_at_time = b.time;
  granted_tx_hash = some hash;
}

-- `block.transactions.find(…)?.messages?.[msgIndex]`
unfoldable pub find_message : AuthzBlock → String → ℕ → Option TxMessage
find_message b hash i = elim (find (λ t. t.hash == hash) b.transactions) [
  | none ↦ none
  | some t ↦ get_elem? t.messages i
]

-- `live.find(…)`
unfoldable pub find_live : String → List LiveGrant → Option LiveGrant
find_live url live =
    find
      (λ g. elim (msg_type_url_for_authorization g.payload.authorization_type g.decoded) [
        | none ↦ false
        | some u ↦ u == url
      ])
      live

-- try { … } catch { }: what was written before the throw stays written
unfoldable pub caught : Action AuthzDb → Action AuthzDb → Action AuthzDb
caught m handler tx = let (r, tx') = m tx in elim r [ ok a ↦ (ok a, tx') | err e ↦ handler tx' ]

-- the upsert at the end of the case of EventGrant, where it comes to one
unfoldable pub write_row : GrantKey → Option Grant → Action AuthzDb
write_row key none = pure tt
write_row key (some g) = upsert_authz_grant key g

-- the row of EntityAccountAuthzCreatedEvent
abbrev pub entity_row : AuthzBlock → String → String → LiveGrant → Grant
entity_row b id hash g =
    granted b hash (some g.payload.authorization_type) (some g.payload.authorization)
      g.payload.expiration (some id)

-- its end: `if (!msgTypeUrl) break`, then the upsert
unfoldable pub write_mapped : String → String → Grant → Option String → Action AuthzDb
write_mapped granter grantee g none = pure tt
write_mapped granter grantee g (some url) =
    if url == "" then pure tt else upsert_authz_grant (granter, (grantee, url)) g

-- `if (!match) return`, then the refresh
unfoldable pub refresh_match : GrantKey → Option LiveGrant → Action AuthzDb
refresh_match key none = pure tt
refresh_match key (some g) = refresh_authz_grant_payload key g.payload >>= λ count. pure tt

-- `authzGrantsQuery`: the live grants of a granter and a grantee at a height, `none` where the
-- archive node does not answer
module _ (authz_grants_query : ℕ → String → String → Option (List LiveGrant)) where
  -- the live grant with the message type
  unfoldable pub hydrated : ℕ → GrantKey → Option LiveGrant
  hydrated height key = elim (authz_grants_query height key.0 key.1.0) [
    | none ↦ none
    | some live ↦ find_live key.1.1 live
  ]

  -- The row that the case of EventGrant writes, `none` where it leaves it to the richer event.
  unfoldable pub row_of_grant : AuthzBlock → GrantKey → String → ℕ → Option Grant
  row_of_grant b key hash i =
      if key.1.1 == "/ixo.claims.v1beta1.MsgWithdrawPayment"
      then some
          (granted b hash (some "/ixo.claims.v1beta1.WithdrawPaymentAuthorization") none none none)
      else elim (find_message b hash i) [
        | none ↦ some (row_of_live b key hash)
        | some m ↦
            if m.type_url == "/cosmos.authz.v1beta1.MsgGrant"
            then elim m.authorization [
              | none ↦ some (granted b hash none none m.expiration none)
              | some (type, value) ↦
                  some (granted b hash (some type) (some value) m.expiration none)
            ]
            else if m.type_url == "/ixo.entity.v1beta1.MsgGrantEntityAccountAuthz"
                || m.type_url == "/ixo.claims.v1beta1.MsgCreateClaimAuthorization"
            then none
            else some (row_of_live b key hash)
      ]
    where
      row_of_live : AuthzBlock → GrantKey → String → Grant
      row_of_live b key hash = elim (hydrated b.height key) [
        | none ↦ granted b hash none none none none
        | some g ↦
            granted b hash (some g.payload.authorization_type) (some g.payload.authorization)
              g.payload.expiration none
      ]

  -- The authz cases of `syncEventData`. An upsert fails only in a failed transaction, so the one
  -- in the `catch` of the case of EventGrant fails where that in the `try` does.
  unfoldable pub sync_authz_event : AuthzBlock → AuthzEvent → Action AuthzDb
  sync_authz_event b (grant_authz key hash i) = write_row key (row_of_grant b key hash i)
  sync_authz_event b (revoke_authz key) = delete_authz_grant key
  sync_authz_event b (entity_authz_created granter grantee id hash none) = pure tt
  sync_authz_event b (entity_authz_created granter grantee id hash (some g)) =
      write_mapped granter grantee (entity_row b id hash g)
        (msg_type_url_for_authorization g.payload.authorization_type g.decoded)
  sync_authz_event b (entity_authz_revoked key) = delete_authz_grant key

  -- `refreshConsumedGrant`; `enabled` is AUTHZ_CONSTRAINT_REFRESH, and "" stands for a missing
  -- granter or grantee too
  unfoldable pub refresh_consumed_grant : Bool → ℕ → GrantKey → Action AuthzDb
  refresh_consumed_grant enabled height key =
      if not enabled || key.0 == "" || key.1.0 == ""
      then pure tt
      else caught (refresh_match key (hydrated height key)) (pure tt)
