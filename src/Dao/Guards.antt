-- ===== src/Dao/Guards.antt =====
-- What `processDaoEvent` and `processDaodaoInstantiateEvent` let through: the cutoff height, and the
-- errors of contracts that no later attempt would read.
use ixo_blocksync.Base.{
  ◌≡◌, refl, ◌∙◌, ap, ℕ, ◌<◌, Bool, true, String, Option, none, some, arith, string_eq, pair_eq,
  nat_eq, if◌then◌else◌, ◌≢◌,
}
use ixo_blocksync.Base.Table.{Table, lookup, upsert, upserted, lookup-upsert_self}
use ixo_blocksync.Numbers.{Arithmetic}
use ixo_blocksync.Pg.{Error, Result, ok, err, Tx, running, statement, pure, throw, ◌>>=◌, ◌>>◌}
use ixo_blocksync.Attributes.{get_wasm_attr, get_wasm_attr?}
use ixo_blocksync.Dao.{DaoVote, DaoDb, has_row, write_if}
use ixo_blocksync.Dao.ProposalSql.{create_dao_vote}
use ixo_blocksync.Dao.Archive.{Archive, VoteInfo, DaoEvent, ask, when_some, is_daodao_indexable}
use ixo_blocksync.Dao.ProposalEvents.{
  process_dao_proposal_event, proposal_action, vote, vote_row, update_pre_propose,
}
use ixo_blocksync.Dao.Dispatch.{
  is_deterministic_wasm_parse_error, skipped, handle_dao_event, process_dao_event,
  process_daodao_instantiate_event,
}

-- Before a cutoff height that is set, both handlers return at once, in any state of the transaction
-- and whatever the archive node would do.
pub process_dao_event_before :
    (js : Arithmetic) (archive : Archive) (includes : String → String → Bool) (cutoff : ℕ)
    (ev : DaoEvent) (address type : String) (tx : Tx DaoDb)
    → cutoff ≢ 0
    → ev.block_height < cutoff
    → (process_dao_event js archive cutoff includes ev tx ≡ (ok tt, tx))
      × (process_daodao_instantiate_event js archive cutoff address type ev.block_height tx
          ≡ (ok tt, tx))
unfolding process_dao_event process_daodao_instantiate_event is_daodao_indexable pure
process_dao_event_before js archive includes cutoff ev address type tx set before =
    (ground (arith, set, before), ground (arith, set, before))

-- From the cutoff height on, or without one, an event ends as its handler does, but for an error
-- that the archive node will always answer with: that one ends the event and not the block. In both
-- cases what the handler wrote stays in the transaction.
pub process_dao_event_from :
    (js : Arithmetic) (archive : Archive) (includes : String → String → Bool) (cutoff : ℕ)
    (ev : DaoEvent) (tx : Tx DaoDb) (e : Error)
    → is_daodao_indexable cutoff ev.block_height ≡ true
    → (handle_dao_event js archive ev tx).0 ≡ err e
    → process_dao_event js archive cutoff includes ev tx ≡ (
      if is_deterministic_wasm_parse_error includes e then ok tt else err e,
      (handle_dao_event js archive ev tx).1,
    )
unfolding process_dao_event skipped
process_dao_event_from js archive includes cutoff ev tx e h failed =
    rw h (ended (handle_dao_event js archive ev tx) failed)
  where
    ended :
        (p : Result (Unit {0}) × Tx DaoDb)
        → p.0 ≡ err e
        → skipped includes p
          ≡ (if is_deterministic_wasm_parse_error includes e then ok tt else err e, p.1)
    ended (r, tx') q = rw q

single_case :
    (js : Arithmetic) (archive : Archive) (ev : DaoEvent)
    → ev.contract_type ≡ "dao_proposal_single"
    → handle_dao_event js archive ev ≡ process_dao_proposal_event js archive ev
unfolding handle_dao_event
single_case js archive ev h = simp h

vote_case :
    (js : Arithmetic) (archive : Archive) (ev : DaoEvent) (address : String)
    → ev.action ≡ "vote"
    → get_wasm_attr ev.attributes "_contract_address" ≡ address
    → process_dao_proposal_event js archive ev ≡ (
        vote js archive ev address
        >> when_some
            (get_wasm_attr? ev.attributes "update_pre_propose_module")
            (update_pre_propose js archive ev address))
unfolding process_dao_proposal_event proposal_action
vote_case js archive ev address e h = simp (e, h)

vote_fails :
    (js : Arithmetic) (archive : Archive) (ev : DaoEvent) (db : DaoDb) (address id voter : String)
    (info : VoteInfo) (e : Error)
    → ev.action ≡ "vote"
    → get_wasm_attr? ev.attributes "proposal_id" ≡ some id
    → archive.vote_info ev.block_height address
        (js.parse_int id)
        (get_wasm_attr? ev.attributes "sender")
      ≡ ok info
    → info.voter ≡ some voter
    → has_row (address, id) db.proposals ≡ true
    → archive.proposal_info ev.block_height address (js.parse_int id) ≡ err e
    → vote js archive ev address (running db) ≡ (
      err e,
      running (record db {
        votes =
            upsert
              (address, (id, voter))
              (vote_row info ev.timestamp ev.block_height)
              (λ old. vote_row info ev.timestamp ev.block_height)
              db.votes;
      }),
    )
unfolding vote create_dao_vote ask write_if statement pure throw ◌>>=◌
vote_fails js archive ev db address id voter info e ha hid hv hvoter hp hf =
    simp (ha, hid, hv, hvoter, hp, hf)

-- A vote on a proposal whose own query fails for ever: the event ends without an error, the vote is
-- stored, and the proposal keeps the status and the votes it had.
process_dao_event_half :
    (js : Arithmetic) (archive : Archive) (includes : String → String → Bool) (cutoff : ℕ)
    (ev : DaoEvent) (db : DaoDb) (address id voter : String) (info : VoteInfo) (e : Error)
    → is_daodao_indexable cutoff ev.block_height ≡ true
    → ev.contract_type ≡ "dao_proposal_single"
    → ev.action ≡ "vote"
    → get_wasm_attr ev.attributes "_contract_address" ≡ address
    → get_wasm_attr? ev.attributes "proposal_id" ≡ some id
    → archive.vote_info ev.block_height address
        (js.parse_int id)
        (get_wasm_attr? ev.attributes "sender")
      ≡ ok info
    → info.voter ≡ some voter
    → has_row (address, id) db.proposals ≡ true
    → archive.proposal_info ev.block_height address (js.parse_int id) ≡ err e
    → is_deterministic_wasm_parse_error includes e ≡ true
    → (db' : DaoDb) × (process_dao_event js archive cutoff includes ev (running db)
        ≡ (ok tt, running db'))
      × (lookup (address, (id, voter)) db'.votes
          ≡ some (vote_row info ev.timestamp ev.block_height))
      × (db'.proposals ≡ db.proposals)
unfolding ◌>>=◌
process_dao_event_half js archive includes cutoff ev db address id voter info e hi ht ha hc hid hv
      hvoter hp hf he =
    let row = vote_row info ev.timestamp ev.block_height in
    let handled : handle_dao_event js archive ev (running db) ≡ (
      err e,
      running (record db { votes = upsert (address, (id, voter)) row (λ old. row) db.votes }),
    ) =
      ap (λ m. m (running db))
        (single_case js archive ev ht ∙ vote_case js archive ev address ha hc)
      ∙ rw (vote_fails js archive ev db address id voter info e ha hid hv hvoter hp hf) in
    (
      record db { votes = upsert (address, (id, voter)) row (λ old. row) db.votes },
      process_dao_event_from js archive includes cutoff ev (running db) e hi (ap (λ p. p.0) handled)
          ∙ rw (handled, he),
      overwritten (address, (id, voter)) row db.votes,
      refl,
    )
  where
    overwritten :
        (k : String × (String × String)) (row : DaoVote)
        (t : Table (String × (String × String)) DaoVote)
        → lookup k (upsert k row (λ old. row) t) ≡ some row
    overwritten k row t = lookup-upsert_self k row (λ old. row) t ∙ same (lookup k t)
      where
        same : (o : Option DaoVote) → some (upserted row (λ old. row) o) ≡ some row
        same none = refl
        same (some old) = refl
