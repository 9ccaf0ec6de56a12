-- ===== src/Tests/Authz.antt =====
-- The theorems on the authz index at one grant, and on the grantee of an exec.
use ixo_blocksync.Base.{
  ◌≡◌, refl, ℕ, String, Option, none, some, List, [], ◌∷◌, string_eq, pair_eq, ◌==◌, if◌then◌else◌,
}
use ixo_blocksync.Base.Table.{lookup}
use ixo_blocksync.Pg.{ok, running, ◌>>◌}
use ixo_blocksync.Authz.{GrantKey, AuthzDb, msg_type_url_for_authorization}
use ixo_blocksync.Authz.Events.{
  LiveGrant, TxMessage, AuthzBlock, grant_authz, entity_authz_created, find_message,
  sync_authz_event,
}
use ixo_blocksync.Authz.Order.{of_entity, sync_authz_event-any_order}
use ixo_blocksync.Authz.ExecChain.{
  Message, exec, claim, done, more, read, Wraps, walk, walk_messages, is_wanted, exec_chain_grantee,
  exec_chain_grantee-Wraps,
}

abbrev url : String
url = "/cosmos.bank.v1beta1.MsgSend"

abbrev message : TxMessage
message = record {
  type_url = "/ixo.entity.v1beta1.MsgGrantEntityAccountAuthz";
  authorization = none;
  expiration = none;
}

abbrev block : AuthzBlock
block = record {
  height = 6;
  time = 60;
  transactions = record { hash = "AB"; messages = message ∷ [] } ∷ [];
}

abbrev no_archive : ℕ → String → String → Option (List LiveGrant)
no_archive height granter grantee = none

abbrev live : LiveGrant
live = record {
  payload = record {
    authorization_type = "/cosmos.authz.v1beta1.GenericAuthorization";
    authorization = "{}";
    expiration = some 90;
  };
  decoded = record { msg = some url; authorization_type = none };
}

sync_authz_event-any_order_example :
    (t' : AuthzDb) × ((sync_authz_event no_archive block (grant_authz ("ann", ("bob", url)) "AB" 0)
          >> sync_authz_event no_archive block
              (entity_authz_created "ann" "bob" "did" "AB" (some live)))
        (running [])
      ≡ (ok tt, running t'))
    × ((sync_authz_event no_archive block (entity_authz_created "ann" "bob" "did" "AB" (some live))
            >> sync_authz_event no_archive block (grant_authz ("ann", ("bob", url)) "AB" 0))
          (running [])
        ≡ (ok tt, running t'))
    × ((k : GrantKey)
        → lookup k t' ≡ (
            if ("ann", ("bob", url)) == k
            then some (of_entity block "did" "AB" live)
            else lookup k []))
unfolding find_message lookup msg_type_url_for_authorization
sync_authz_event-any_order_example =
    sync_authz_event-any_order no_archive block "ann" "bob" url "did" "AB" 0 message live [] refl
      refl refl refl refl

-- an exec by "outer" of an exec by "inner" of a claim message
abbrev nested_exec : Message
nested_exec =
    exec "outer" (
      more (exec "inner" (more (claim "/ixo.claims.v1beta1.MsgSubmitClaim" (read "c1")) done)) done)

exec_chain_grantee-Wraps_example :
    Wraps "/ixo.claims.v1beta1.MsgSubmitClaim" (some "c1") nested_exec "inner"
unfolding exec_chain_grantee walk_messages walk is_wanted
exec_chain_grantee-Wraps_example =
    exec_chain_grantee-Wraps "/ixo.claims.v1beta1.MsgSubmitClaim" (some "c1") nested_exec "inner"
      refl
