-- ===== src/Tests/V7Snapshot.antt =====
-- The snapshot of the v7 upgrade at concrete data.
use ixo_blocksync.Base.{◌≡◌, refl, ◌⊎◌, false, none, some, [], ◌∷◌, arith}
use ixo_blocksync.Pg.{Error, ok, err, thrown}
use ixo_blocksync.V7Snapshot.{V7Db, Setting, ensure_v7_snapshot}
use ixo_blocksync.V7Snapshot.Cleaning.{AllRelinked, AllDismissed}
use ixo_blocksync.V7Snapshot.Legacy.{ensure_v7_snapshot-IsClean}
use ixo_blocksync.Tests.Claims.{claim_db, dispute}

-- a stake from before the upgrade, and a dispute without a target role
abbrev db : V7Db
db = record {
  state = none;
  liquid = record {
    pools = [];
    params = none;
    txs =
        record {
          kind = "stake";
          pool_id = "";
          delegator = some "ann";
          payload = "{}";
          transaction_hash = none;
          height = 3;
          timestamp = 4;
        }
        ∷ [];
  };
  claims = record claim_db { disputes = (1, record dispute { target_role = 0 }) ∷ [] };
}

abbrev set : Setting
set = record {
  network = "mainnet";
  upgrade_height = 5;
  now = 9;
  module_params = ok (some ("1000", false));
  pools = ok [];
  collection = λ id. err (thrown "unreadable");
}

ensure_v7_snapshot-IsClean_example :
    ((db' : V7Db) × (ensure_v7_snapshot set 7 db ≡ (ok tt, db'))
      × AllRelinked 5 db'.liquid.txs
      × AllDismissed db'.claims.disputes)
    ⊎ ((e : Error) × (ensure_v7_snapshot set 7 db ≡ (err e, db)))
ensure_v7_snapshot-IsClean_example =
    ensure_v7_snapshot-IsClean set 7 db (λ h. absurd (cc h)) (omega arith) refl
