-- ===== src/Token/Spec.antt =====
-- What "TokenBalance" is to hold, computed from the ledger alone: the SELECT by which the
-- migration 20260618000000000_token_balance_minted_retired.sql rebuilds the table. Every
-- transaction gives a delta to its recipient and one to its sender, the empty side skipped; the
-- deltas are summed for each (address, tokenId), and sums that are all zero are left out.
use ixo_blocksync.Base.{
  String, Option, none, some, List, [], ◌∷◌, ◌&&◌, ◌==◌, string_eq, not, if◌then◌else◌,
}
use ixo_blocksync.Base.Int.{pos, neg}
use ixo_blocksync.Token.{TokenTransaction, Balance, add, is_trivial}

abbrev pub nothing : Balance
nothing = record { amount = pos 0; minted = pos 0; retired = pos 0 }

-- SELECT "to" …, CASE WHEN "from" = '' THEN "amount" ELSE 0 END … WHERE "to" <> ''
unfoldable pub credit : String → String → TokenTransaction → Balance
credit address token_id t =
    if t.to == address && t.token_id == token_id && not (t.to == "")
    then record {
      amount = t.amount;
      minted = if t.sender == "" then t.amount else pos 0;
      retired = pos 0;
    }
    else nothing

-- SELECT "from" …, -"amount", CASE WHEN "to" = '' THEN "amount" ELSE 0 END … WHERE "from" <> ''
unfoldable pub debit : String → String → TokenTransaction → Balance
debit address token_id t =
    if t.sender == address && t.token_id == token_id && not (t.sender == "")
    then record {
      amount = neg t.amount;
      minted = pos 0;
      retired = if t.to == "" then t.amount else pos 0;
    }
    else nothing

-- the sums of GROUP BY addr, "tokenId"
unfoldable pub holdings : String → String → List TokenTransaction → Balance
holdings address token_id [] = nothing
holdings address token_id (t ∷ ts) =
    add (add (credit address token_id t) (debit address token_id t)) (holdings address token_id ts)

-- HAVING SUM(amount_delta) <> 0 OR SUM(minted_delta) <> 0 OR SUM(retired_delta) <> 0
unfoldable pub having : Balance → Option Balance
having b = if is_trivial b then none else some b
