-- ===== src/Dao/PreProposeSql.antt =====
-- postgres/dao.ts: the statements on pre-propose modules and their approvals, and
-- `deriveOpenProposalSubmission`.
use ixo_blocksync.Base.{
  ℕ, Bool, false, String, Option, none, some, List, ◌==◌, string_eq, pair_eq, find,
}
use ixo_blocksync.Base.Table.{upsert, update}
use ixo_blocksync.Pg.{Action}
use ixo_blocksync.Dao.{DaoDb, write, write_if, has_row, is_some}

-- A `submission_policy`: its keys, and its text.
pub record SubmissionPolicy : Type 0 where
  pub keys : List String
  pub text : String

-- `config` of a pre-propose module: the old boolean, or the policy that replaced it
pub record PreProposeConfig : Type 0 where
  pub deposit_info : Option String
  pub open_proposal_submission : Option Bool
  pub submission_policy : Option SubmissionPolicy

unfoldable pub derive_open_proposal_submission : Option Bool → Option SubmissionPolicy → Bool
derive_open_proposal_submission (some is_open) policy = is_open
derive_open_proposal_submission none none = false
derive_open_proposal_submission none (some policy) =
    is_some (find (λ key. key == "anyone") policy.keys)

abbrev pub policy_text : Option SubmissionPolicy → Option String
policy_text none = none
policy_text (some policy) = some policy.text

unfoldable pub create_dao_pre_propose_module :
    String → Option String → PreProposeConfig → ℕ → ℕ → Action DaoDb
unfolding write derive_open_proposal_submission
create_dao_pre_propose_module address proposal_module conf created_at height = write (λ db.
    record db {
      pre_propose_modules =
          upsert address
            (record {
              proposal_module = proposal_module;
              deposit_info = conf.deposit_info;
              open_proposal_submission =
                  derive_open_proposal_submission conf.open_proposal_submission
                    conf.submission_policy;
              submission_policy = policy_text conf.submission_policy;
              created_at = created_at;
              block_height = height;
            })
            (λ old. old) db.pre_propose_modules;
    })

unfoldable pub update_dao_pre_propose_module : String → PreProposeConfig → Action DaoDb
unfolding write derive_open_proposal_submission
update_dao_pre_propose_module address conf = write (λ db. record db {
  pre_propose_modules =
      update address
        (λ row. record row {
          deposit_info = conf.deposit_info;
          open_proposal_submission =
              derive_open_proposal_submission conf.open_proposal_submission conf.submission_policy;
          submission_policy = policy_text conf.submission_policy;
        })
        db.pre_propose_modules;
})

-- `createDaoPrePropseApproval`
unfoldable pub create_dao_pre_propse_approval : String → String → String → ℕ → ℕ → Action DaoDb
unfolding write_if
create_dao_pre_propse_approval pre_propose approval_id proposer submitted_at height =
    write_if (λ db. has_row pre_propose db.pre_propose_modules)
      (λ db. record db {
        approvals =
            upsert (pre_propose, approval_id)
              (record {
                proposer = proposer;
                status = "pending";
                proposal_id = none;
                submitted_at = submitted_at;
                submitted_at_height = height;
                resolved_at = none;
                resolved_at_height = none;
              })
              (λ old. old) db.approvals;
      })

-- `resolveDaoPrePropseApproval`
unfoldable pub resolve_dao_pre_propse_approval :
    String → String → String → Option String → ℕ → ℕ → Action DaoDb
unfolding write
resolve_dao_pre_propse_approval pre_propose approval_id status proposal_id resolved_at height =
    write (λ db. record db {
      approvals =
          update (pre_propose, approval_id)
            (λ row. record row {
              status = status;
              proposal_id = proposal_id;
              resolved_at = some resolved_at;
              resolved_at_height = some height;
            })
            db.approvals;
    })
