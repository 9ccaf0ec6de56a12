-- ===== src/Tests/TokenClasses.antt =====
-- The classes and tokens at concrete data.
use ixo_blocksync.Base.{◌≡◌, refl, false, none, some, [], ◌∷◌, string_eq}
use ixo_blocksync.Base.Int.{pos}
use ixo_blocksync.Base.Table.{lookup}
use ixo_blocksync.Pg.{ok, running}
use ixo_blocksync.Token.Classes.{
  TokenClass, TokenRetired, ClassDb, TokenEvent, class_updated, sync_token_table_event,
  is_name_free, are_tokens, are_bigints,
}
use ixo_blocksync.Token.Entities.{IsStored, sync_token_table_event-IsStored}

-- a class whose minter gives its own DID, which is no entity
abbrev carbon : TokenClass
carbon = record {
  minter = "ann";
  class = some "did:ixo:ann";
  name = "carbon";
  description = "";
  image = "";
  type = "ixo1155";
  cap = pos 0;
  supply = pos 9;
  paused = false;
  stopped = false;
}

abbrev retirement : TokenRetired
retirement = record {
  id = "t1";
  reason = "offset";
  jurisdiction = "CH";
  amount = pos 2;
  owner = "ann";
}

abbrev class_db : ClassDb
class_db = record {
  entities = ("e1", tt) ∷ [];
  classes = ("ixo1token", record carbon { class = none }) ∷ [];
  tokens = ("t1", record { index = "1"; name = "carbon"; collection = some "e1" }) ∷ [];
  token_data = [];
  retired = [];
  cancelled = [];
}

abbrev update_event : TokenEvent
update_event = class_updated "ixo1token" carbon (retirement ∷ []) []

sync_token_table_event-IsStored_example :
    (db' : ClassDb) × (sync_token_table_event update_event (running class_db)
      ≡ (ok tt, running db'))
    × IsStored class_db update_event db'
unfolding lookup is_name_free are_tokens are_bigints
sync_token_table_event-IsStored_example =
    sync_token_table_event-IsStored update_event class_db (refl, refl, refl, refl, refl, refl)
