-- ===== src/Tests/Assembly.antt =====
-- The theorem on the assembled handlers at a block with an authz index.
use ixo_blocksync.Base.{
  ◌≡◌, refl, ℕ, string_eq, pair_eq, false, String, Option, none, some, [], ◌∷◌,
}
use ixo_blocksync.Base.Table.{lookup, update, delete_where}
use ixo_blocksync.Pg.{ok, pure, query, promise_all, with_transaction, ◌>>=◌}
use ixo_blocksync.Sync.{sync_block, update_chain}
use ixo_blocksync.Sync.Interface.{BlockCore, World}
use ixo_blocksync.Sync.Assembly.{Rest, zoom, on_rest, sweep, sync_block-is_expired}
use ixo_blocksync.Events.{sync_events, sync_events_from}
use ixo_blocksync.Transactions.{sync_transactions}
use ixo_blocksync.Authz.{GrantKey, Grant, AuthzDb, is_expired, delete_expired_authz_grants}

abbrev grant_until : Option ℕ → Grant
grant_until at = record {
  authorization_type = none;
  authorization = none;
  expiration = at;
  entity_id = none;
  granted_at_height = 3;
  granted_at_time = 30;
  granted_tx_hash = some "AB";
}

abbrev key_of : String → GrantKey
key_of grantee = ("ixo1granter", (grantee, "/cosmos.bank.v1beta1.MsgSend"))

abbrev late : AuthzDb
late = (key_of "late", grant_until (some 70)) ∷ []

abbrev at_height : ℕ → AuthzDb → World (Rest (Unit {0}))
at_height height index = record {
  chain = ("impacthub", height) ∷ [];
  rest = record {
    transactions = record {
      next_id = 1;
      transactions = [];
      messages = [];
      signers = [];
      authenticators = [];
    };
    authz = index;
    others = tt;
  };
}

abbrev empty_block : BlockCore
empty_block = record { height = 6; time = 60; transactions = []; events = [] }

sync_block-is_expired_example : is_expired 60 (grant_until (some 70)) ≡ false
unfolding with_transaction sync_block promise_all update_chain update zoom on_rest sweep sync_events
    sync_events_from sync_transactions delete_expired_authz_grants delete_where is_expired lookup
    query pure ◌>>=◌
sync_block-is_expired_example =
    sync_block-is_expired (λ b e. pure none) (λ n r. (ok tt, r)) (λ n r. (ok tt, r)) (λ b r. r)
      "impacthub" empty_block (at_height 5 ((key_of "early", grant_until (some 50)) ∷ late))
      (at_height 6 late) (key_of "late") (grant_until (some 70)) refl refl
