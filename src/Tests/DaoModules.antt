-- ===== src/Tests/DaoModules.antt =====
-- The proposal modules and the guards of the DAO events at concrete data.
use ixo_blocksync.Base.{
  ◌≡◌, refl, true, String, none, some, List, [], ◌∷◌, ◌==◌, string_eq, pair_eq, nat_eq,
  if◌then◌else◌,
}
use ixo_blocksync.Base.Table.{lookup, change}
use ixo_blocksync.Pg.{Error, ok, err, thrown, running, ◌>>◌}
use ixo_blocksync.Sync.Interface.{Attribute}
use ixo_blocksync.Attributes.{get_wasm_attr, get_wasm_attr?}
use ixo_blocksync.Dao.{DaoDb, DaoCore, DaoProposal, DaoProposalModule}
use ixo_blocksync.Dao.Archive.{Archive, CreationPolicy, VoteInfo, text_vote, DaoEvent}
use ixo_blocksync.Dao.ProposalEvents.{process_dao_proposal_event}
use ixo_blocksync.Dao.PreProposeEvents.{process_dao_pre_propose_event, is_approval}
use ixo_blocksync.Dao.Modules.{pointed, is_indexed, process_dao_proposal_event-policy}
use ixo_blocksync.Dao.Wiring.{
  IsPolicyEvent, IsInstantiation, IsPointerEvent, process_dao_proposal_event-wired,
}
use ixo_blocksync.Tests.DaoStakes.{exact_js, silent, empty_db}

abbrev policy : CreationPolicy
policy = record { text = some "{module}"; module_address = some "p" }

abbrev parse_error : Error
parse_error = thrown "unreadable"

abbrev info : VoteInfo
info = record { voter = some "ann"; vote = text_vote "yes"; rationale = none; power = some "5" }

abbrev chain : Archive
chain = record silent {
  proposal_module_config = λ n a. ok (some "{config}");
  creation_policy = λ n a. ok policy;
  pre_propose_config = λ n a. ok (record {
    deposit_info = none;
    open_proposal_submission = some true;
    submission_policy = none;
  });
  vote_info = λ n a i v. ok info;
  proposal_info = λ n a i. err parse_error;
}

abbrev event : String → String → List Attribute → DaoEvent
event action contract attributes = record {
  attributes = record { key = "_contract_address"; value = contract } ∷ attributes;
  timestamp = 9;
  contract_type = "dao_proposal_single";
  block_height = 3;
  action = action;
}

-- the stub of the proposal module "m"
abbrev stub : DaoProposalModule
stub = record {
  dao_address = some "dao";
  module_type = none;
  prefix = some "A";
  status = some "enabled";
  created_at = 1;
  block_height = 1;
  pre_propose_module = none;
  proposal_creation_policy = none;
  config = none;
}

abbrev core_row : DaoCore
core_row = record {
  name = none;
  description = none;
  image_url = none;
  automatically_add_cw20s = none;
  automatically_add_cw721s = none;
  dao_uri = none;
  admin_address = none;
  created_at = 1;
  block_height = 1;
  voting_module = none;
  paused_until = none;
}

abbrev pub proposal : DaoProposal
proposal = record {
  title = none;
  description = none;
  proposer = none;
  start_height = none;
  min_voting_period = none;
  expiration = none;
  threshold = none;
  total_power = none;
  allow_revoting = none;
  msgs = none;
  status = some "open";
  votes = none;
  created_at = 1;
  block_height = 1;
}

abbrev pub db : DaoDb
db = record empty_db {
  core = ("dao", core_row) ∷ [];
  proposal_modules = ("m", stub) ∷ [];
  proposals = (("m", "1"), proposal) ∷ [];
}

abbrev instantiation : DaoEvent
instantiation = event "instantiate" "m" (record { key = "dao"; value = "dao" } ∷ [])

abbrev policy_event : DaoEvent
policy_event = event "update_proposal_creation_policy" "m" []

process_dao_proposal_event-policy_example :
    (db' : DaoDb) × (process_dao_proposal_event exact_js chain policy_event (running db)
      ≡ (ok tt, running db'))
    × ((other : String)
        → lookup other db'.proposal_modules ≡ (
            if "m" == other
            then change
                (λ row. record row {
                  proposal_creation_policy = policy.text;
                  pre_propose_module =
                      pointed policy.module_address (is_indexed policy.module_address db) row;
                })
                (lookup "m" db.proposal_modules)
            else lookup other db.proposal_modules))
unfolding get_wasm_attr get_wasm_attr?
process_dao_proposal_event-policy_example =
    process_dao_proposal_event-policy exact_js chain policy_event db "m" policy refl refl refl refl
      refl

is_policy_event : IsPolicyEvent chain policy_event "m" "p"
unfolding get_wasm_attr get_wasm_attr?
is_policy_event = record {
  policy = policy;
  action = refl;
  contract = refl;
  no_update = refl;
  answer = refl;
  names = refl;
  named = refl;
}

is_instantiation : IsInstantiation chain (event "instantiate" "p" []) "p"
unfolding get_wasm_attr get_wasm_attr? is_approval
is_instantiation = record {
  conf = record {
    deposit_info = none;
    open_proposal_submission = some true;
    submission_policy = none;
  };
  action = refl;
  contract = refl;
  no_approval = refl;
  answer = refl;
}

abbrev pointer_event : DaoEvent
pointer_event = event "" "m" (record { key = "update_pre_propose_module"; value = "p" } ∷ [])

abbrev is_pointer_event : IsPointerEvent chain pointer_event "m" "p"
unfolding get_wasm_attr get_wasm_attr?
is_pointer_event = record {
  policy = policy;
  action = refl;
  contract = refl;
  update = refl;
  answer = refl;
}

process_dao_proposal_event-wired_example :
    (db' : DaoDb) × ((process_dao_proposal_event exact_js chain policy_event
          >> process_dao_pre_propose_event exact_js chain (event "instantiate" "p" [])
          >> process_dao_proposal_event exact_js chain pointer_event)
        (running db)
      ≡ (ok tt, running db'))
    × (lookup "m" db'.proposal_modules
        ≡ some (record stub {
          pre_propose_module = some "p";
          proposal_creation_policy = is_pointer_event.policy.text;
        }))
unfolding lookup
process_dao_proposal_event-wired_example =
    process_dao_proposal_event-wired exact_js chain policy_event (event "instantiate" "p" [])
      pointer_event "m" "p" db stub is_policy_event is_instantiation is_pointer_event refl refl

abbrev vote_event : DaoEvent
vote_event = event "vote" "m" (record { key = "proposal_id"; value = "1" } ∷ [])
