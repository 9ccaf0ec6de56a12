-- ===== src/Tests/DaoStakes.antt =====
-- The stakes, members and claims of the DAO tables at concrete data.
use ixo_blocksync.Base.{
  ◌≡◌, refl, String, Option, none, some, List, [], ◌∷◌, ◌==◌, arith, string_eq, pair_eq, inr,
  if◌then◌else◌,
}
use ixo_blocksync.Base.Int.{pos, ◌+ℤ◌, neg}
use ixo_blocksync.Base.Table.{lookup}
use ixo_blocksync.Numbers.{Number, nan, integer, Arithmetic, IsExact, IsSafe}
use ixo_blocksync.Pg.{ok, err, thrown, running}
use ixo_blocksync.Attributes.{get_wasm_attr, get_wasm_attr?}
use ixo_blocksync.Dao.{DaoDb, DaoVotingModule, StakingClaim, cw20}
use ixo_blocksync.Dao.StakerSql.{sum_staked, sum_weight}
use ixo_blocksync.Dao.Archive.{Archive, QueuedClaim, DaoEvent}
use ixo_blocksync.Dao.StakeEvents.{process_cw20_stake_event, process_cw4_group_event, total_weight}
use ixo_blocksync.Dao.Weights.{IsSettled}
use ixo_blocksync.Dao.Cw20Stake.{
  IsMove, process_cw20_stake_event-stake, process_cw20_stake_event-unstake,
}
use ixo_blocksync.Dao.Members.{weight_in, AllWeighGroup, process_cw4_group_event-members}
use ixo_blocksync.Dao.ClaimMarks.{AllMarked, process_cw20_stake_event-claim}

-- integers without a bound, and the texts of two amounts
abbrev pub exact_js : Arithmetic
exact_js = record {
  parse_int = λ text. if text == "5" then integer (pos 5) else nan;
  nearest = λ z. z;
  plus = λ a b. a +ℤ b;
  minus = λ a b. a +ℤ neg b;
  floor_div = λ text n. 0;
}

pub exact_js-IsExact : IsExact exact_js
exact_js-IsExact = record {
  nearest_safe = λ z h. refl;
  plus_safe = λ a b ha hb h. refl;
  minus_safe = λ a b ha hb h. refl;
}

-- an archive node that answers no query
abbrev pub silent : Archive
silent = record {
  dump_state = λ n a. err (thrown "");
  list_sub_daos = λ n a. err (thrown "");
  proposal_module_config = λ n a. err (thrown "");
  creation_policy = λ n a. err (thrown "");
  proposal_info = λ n a i. err (thrown "");
  vote_info = λ n a i v. err (thrown "");
  pre_propose_config = λ n a. err (thrown "");
  pending_proposer = λ n a i. err (thrown "");
  active_threshold = λ n a. err (thrown "");
  cw721_config = λ n a. err (thrown "");
  native_config = λ n a. err (thrown "");
  cw20_config = λ n a. err (thrown "");
  staked_nfts = λ n a f. err (thrown "");
  staking_claims = λ n a f. err (thrown "");
  nft_claims = λ n a f. err (thrown "");
  cw4_members = λ n a. err (thrown "");
}

abbrev pub empty_db : DaoDb
empty_db = record {
  core = [];
  items = [];
  sub_daos = [];
  proposal_modules = [];
  proposals = [];
  votes = [];
  proposal_hooks = [];
  vote_hooks = [];
  pre_propose_modules = [];
  approvals = [];
  voting_modules = [];
  cw4_group_contracts = [];
  cw20_staking_contracts = [];
  cw4_members = [];
  cw20_stakers = [];
  native_stakers = [];
  cw721_stakers = [];
  claims = [];
}

abbrev voting : Option String → Option String → Number → DaoVotingModule
voting staking group weight = record {
  module_type = "dao_voting";
  token_address = none;
  staking_contract = staking;
  group_contract_address = group;
  nft_contract = none;
  native_denom = none;
  total_weight = some weight;
  active_threshold = none;
  unstaking_duration = none;
  created_at = 1;
  block_height = 1;
}

-- "ann" holds 5 and "ben" 2 at the staking contract "s", which the module "v" weighs.
abbrev pub staked_db : DaoDb
staked_db = record empty_db {
  voting_modules = ("v", voting (some "s") none (integer (pos 7))) ∷ [];
  cw20_staking_contracts = ("s", tt) ∷ [];
  cw20_stakers = (("s", "ann"), integer (pos 5)) ∷ (("s", "ben"), integer (pos 2)) ∷ [];
}

abbrev event : String → DaoEvent
event action = record {
  attributes =
      record { key = "_contract_address"; value = "s" }
      ∷ record { key = "from"; value = "ann" }
      ∷ record { key = "amount"; value = "5" }
      ∷ record { key = "claim_duration"; value = "60" }
      ∷ [];
  timestamp = 9;
  contract_type = "cw20_stake";
  block_height = 3;
  action = action;
}

move :
    (action : String) → IsMove exact_js (event action) staked_db "s" "ann" (pos 5) (pos 7) (pos 5)
unfolding get_wasm_attr get_wasm_attr? sum_staked lookup ◌+ℤ◌
move action = record {
  contract = refl;
  staker = refl;
  amount = refl;
  registered = refl;
  sum = refl;
  old = refl;
  amount_safe = omega arith;
  sum_safe = omega arith;
  old_safe = omega arith;
}

IsSafe-sum : IsSafe (pos 7 +ℤ pos 5)
unfolding ◌+ℤ◌
IsSafe-sum = omega arith

IsSafe-own : IsSafe (pos 5 +ℤ pos 5)
unfolding ◌+ℤ◌
IsSafe-own = omega arith

IsSafe-rest : IsSafe (pos 7 +ℤ neg (pos 5))
unfolding ◌+ℤ◌ neg
IsSafe-rest = omega arith

IsSafe-none : IsSafe (pos 5 +ℤ neg (pos 5))
unfolding ◌+ℤ◌ neg
IsSafe-none = omega arith

settled : IsSettled "s" staked_db
unfolding sum_staked ◌+ℤ◌
settled = (inr refl, tt)

process_cw20_stake_event-stake_example :
    (db' : DaoDb) × (process_cw20_stake_event exact_js silent (event "stake") (running staked_db)
      ≡ (ok tt, running db'))
    × (sum_staked "s" db'.cw20_stakers ≡ integer (pos 7 +ℤ pos 5))
    × IsSettled "s" db'
    × IsSettled "s" db'
process_cw20_stake_event-stake_example =
    process_cw20_stake_event-stake exact_js silent (event "stake") staked_db "s" "s" "ann" (pos 5)
      (pos 7) (pos 5) exact_js-IsExact (move "stake") refl IsSafe-sum IsSafe-own settled

abbrev one_claim : QueuedClaim
one_claim = record { amount = some "5"; token_id = none; release_at = none }

abbrev answering : Archive
answering = record silent {
  staking_claims = λ n a f. ok (one_claim ∷ []);
  cw4_members = λ n g. if g == "g" then ok (("ann", 3) ∷ ("ben", 4) ∷ []) else ok [];
}

process_cw20_stake_event-unstake_example :
    (db' : DaoDb) × (process_cw20_stake_event exact_js answering
        (event "unstake")
        (running staked_db)
      ≡ (ok tt, running db'))
    × (sum_staked "s" db'.cw20_stakers ≡ integer (pos 7 +ℤ neg (pos 5)))
    × IsSettled "s" db'
    × IsSettled "s" db'
process_cw20_stake_event-unstake_example =
    process_cw20_stake_event-unstake exact_js answering (event "unstake") staked_db "s" "s" "ann"
      (pos 5) (pos 7) (pos 5) exact_js-IsExact (move "unstake") (one_claim ∷ []) refl refl
      IsSafe-rest IsSafe-none settled

-- a group "g" whose one stored member is gone
abbrev group_db : DaoDb
group_db = record empty_db {
  voting_modules = ("v", voting none (some "g") (integer (pos 9))) ∷ [];
  cw4_group_contracts = ("g", tt) ∷ ("h", tt) ∷ [];
  cw4_members = (("g", "old"), 9) ∷ [];
}

abbrev group_event : String → DaoEvent
group_event g = record {
  attributes = record { key = "_contract_address"; value = g } ∷ [];
  timestamp = 9;
  contract_type = "cw4_group";
  block_height = 3;
  action = "update_members";
}

process_cw4_group_event-members_example :
    (db' : DaoDb) × (process_cw4_group_event exact_js answering (group_event "g") (running group_db)
      ≡ (ok tt, running db'))
    × ((d b : String)
        → lookup (d, b) db'.cw4_members ≡ (
            if "g" == d
            then weight_in (("ann", 3) ∷ ("ben", 4) ∷ []) b
            else lookup (d, b) group_db.cw4_members))
    × (sum_weight "g" db'.cw4_members ≡ total_weight (("ann", 3) ∷ ("ben", 4) ∷ []))
    × AllWeighGroup "g"
        (integer (pos (total_weight (("ann", 3) ∷ ("ben", 4) ∷ []))))
        db'.voting_modules
unfolding get_wasm_attr get_wasm_attr? lookup
process_cw4_group_event-members_example =
    process_cw4_group_event-members exact_js answering (group_event "g") group_db "g" ("ann", 3)
      (("ben", 4) ∷ []) refl refl refl refl refl

abbrev claim_db : DaoDb
claim_db = record empty_db {
  claims =
      record {
        kind = cw20;
        staking_contract = "s";
        staker_address = "ann";
        amount = some "5";
        token_id = none;
        release_at = some 9;
        unstaked_at_height = 1;
        claimed_at = none;
        claimed_at_height = none;
      }
      ∷ [];
}

process_cw20_stake_event-claim_example :
    (cs : List StakingClaim) × (process_cw20_stake_event exact_js silent
        (event "claim")
        (running claim_db)
      ≡ (ok tt, running (record claim_db { claims = cs })))
    × AllMarked cw20 "s" "ann" 9 3 claim_db.claims cs
    × (process_cw20_stake_event exact_js silent
          (event "claim")
          (running (record claim_db { claims = cs }))
        ≡ (ok tt, running (record claim_db { claims = cs })))
unfolding get_wasm_attr get_wasm_attr?
process_cw20_stake_event-claim_example =
    process_cw20_stake_event-claim exact_js silent (event "claim") claim_db "s" "ann" refl refl refl
