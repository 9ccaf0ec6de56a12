-- ===== src/Tests/Names.antt =====
-- The theorem on the names events at a refused registration.
use ixo_blocksync.Base.{true, false, none, some, [], ◌∷◌}
use ixo_blocksync.Pg.{running}
use ixo_blocksync.Names.{Namespace, NameRecord, NamesDb, name_registered, number, sync_names_event}
use ixo_blocksync.Names.Records.{Keeps, sync_names_event-Keeps}

abbrev alice : NameRecord
alice = record {
  display_name = "Alice";
  owner_did = "did:ixo:alice";
  verified = false;
  valid_until = 0;
  status = 1;
  verified_by = none;
  evidence_hash = none;
  source = none;
  created_at_unix = some 7;
  updated_at_unix = none;
  updated_at_height = none;
}

abbrev people : Namespace
people = record {
  description = "";
  registrar_accounts = [];
  allow_self_register = true;
  allow_registrar_override = false;
  min_length = 1;
  max_length = 9;
  regex = "";
  allow_expiry = false;
  authority = none;
  created_at_height = some 3;
  created_at = some 30;
  updated_at_height = some 3;
  updated_at = some 30;
}

abbrev names_db : NamesDb
names_db = record {
  namespaces = ("people", people) ∷ [];
  records = (("people", "alice"), alice) ∷ [];
  transfers = [];
  status_changes = [];
}

sync_names_event-Keeps_example :
    Keeps names_db
      (sync_names_event
        (λ s. none)
        9
        90
        (name_registered "people" "alice" alice (number 2))
        (running names_db)).1.db
sync_names_event-Keeps_example =
    sync_names_event-Keeps (λ s. none) 9 90 (name_registered "people" "alice" alice (number 2))
      names_db
