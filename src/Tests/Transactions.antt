-- ===== src/Tests/Transactions.antt =====
-- The theorem on transaction_sync.ts at two transactions, the first with a skipped message.
use ixo_blocksync.Base.{none, some, String, List, [], ◌∷◌}
use ixo_blocksync.Transactions.{Message, TransactionCore, TxDb}

abbrev message : String → Message
message type_url = record {
  type_url = type_url;
  value = "{}";
  sender = none;
  to = none;
  denoms = [];
  token_names = [];
  transaction_hash = "AB";
  index = 0;
}

abbrev transaction : String → TransactionCore
transaction type_url = record {
  hash = "AB";
  code = 0;
  fee = "{}";
  gas_used = "1";
  gas_wanted = "2";
  memo = "";
  fee_payer = none;
  sequence = some 5;
  selected_authenticators = some (7 ∷ []);
  messages =
      record {
        type_url = type_url;
        index = 0;
        decoded = some (message type_url, some "ixo1signer");
      }
      ∷ [];
}

abbrev transactions : List TransactionCore
transactions =
    transaction "/ibc.core.client.v1.MsgUpdateClient"
    ∷ transaction "/cosmos.bank.v1beta1.MsgSend"
    ∷ []

abbrev empty_db : TxDb
empty_db = record {
  next_id = 40;
  transactions = [];
  messages = [];
  signers = [];
  authenticators = 7 ∷ [];
}
