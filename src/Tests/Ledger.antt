-- ===== src/Tests/Ledger.antt =====
-- The theorems on postgres/token.ts at a mint.
use ixo_blocksync.Base.{◌≡◌, refl, [], ◌∷◌, arith, string_eq, pair_eq}
use ixo_blocksync.Base.Int.{pos}
use ixo_blocksync.Base.Table.{lookup}
use ixo_blocksync.Pg.{ok, running}
use ixo_blocksync.Token.{TokenTransaction, Ledger, create_token_transaction}
use ixo_blocksync.Token.Spec.{holdings, having}
use ixo_blocksync.Token.Volume.{volume}
use ixo_blocksync.Token.Balances.{IsSynced}
use ixo_blocksync.Token.Balances.Posting.{create_token_transaction-IsSynced}

abbrev mint : TokenTransaction
mint = record { sender = ""; to = "ixo1to"; amount = pos 5; token_id = "t1" }

abbrev empty_ledger : Ledger
empty_ledger = record { tokens = ("t1", tt) ∷ []; transactions = []; balances = [] }

empty_ledger-IsSynced : IsSynced empty_ledger
unfolding lookup holdings having
empty_ledger-IsSynced = record { unique = tt; agrees = λ a k. refl }

create_token_transaction-IsSynced_example :
    (s' : Ledger) × (create_token_transaction mint (running empty_ledger) ≡ (ok tt, running s'))
    × (s'.transactions ≡ mint ∷ [])
    × IsSynced s'
unfolding lookup volume
create_token_transaction-IsSynced_example =
    create_token_transaction-IsSynced mint empty_ledger empty_ledger-IsSynced (omega arith) refl
