-- ===== src/Transactions.antt =====
-- sync_handlers/transaction_sync.ts and postgres/transaction.ts: the transactions of a block, their
-- messages and signers, and the ids that link them. Messages come with what
-- `decodeAndProcessMessage` and `extractSignerFromMessage` make of them.
pub mod Links
use ixo_blocksync.Base.{
  ℕ, zero, suc, ◌+◌, Bool, true, false, String, Option, none, some, List, [], ◌∷◌, ◌++◌, map,
  get_elem?, length, ◌==◌, nat_eq, string_eq, if◌then◌else◌, ltb, ◌&&◌, nat_beq, ◌||◌,
}
use ixo_blocksync.Base.Table.{Table, lookup}
use ixo_blocksync.Pg.{Result, ok, err, Exec, Action, pure, statement, ◌>>=◌, ◌>>◌}

-- a row of "Transaction" without its id, height and time
pub record Transaction : Type 0 where
  pub hash : String
  pub code : ℕ
  pub fee : String
  pub gas_used : String
  pub gas_wanted : String
  pub memo : String
  pub fee_payer : Option String
  pub tx_index : ℕ

-- a row of "Message" without its "transactionId"
pub record Message : Type 0 where
  pub type_url : String
  pub value : String
  pub sender : Option String
  pub to : Option String
  pub denoms : List String
  pub token_names : List String
  pub transaction_hash : String
  pub index : ℕ

-- a row of "TransactionSigner" without its "transactionId"
pub record TransactionSigner : Type 0 where
  pub transaction_hash : String
  pub signer_address : String
  pub message_index : ℕ
  pub authenticator_id : Option ℕ
  pub sequence : Option ℕ

-- what is inserted, with the transient `txIndex` of its transaction
pub record Item (A : Type 0) : Type 0 where
  pub content : A
  pub tx_index : ℕ

-- a row with its "transactionId"
pub record Row (A : Type 0) : Type 0 where
  pub content : A
  pub transaction_id : Option ℕ

pub record TransactionRow : Type 0 where
  pub id : ℕ
  pub transaction : Transaction
  pub time : ℕ
  pub height : ℕ

pub record TxDb : Type 0 where
  pub next_id : ℕ
  pub transactions : List TransactionRow
  pub messages : List (Row Message)
  pub signers : List (Row TransactionSigner)
  -- the ids of "smart_account_authenticator"
  pub authenticators : List ℕ

pub record Block : Type 0 where
  pub height : ℕ
  pub time : ℕ
  pub transactions : List Transaction
  pub messages : List (Item Message)
  pub signers : List (Item TransactionSigner)

-- the rows of insertTransactionSql, whose ids are the next of the sequence
unfoldable pub numbered : ℕ → ℕ → ℕ → List Transaction → List TransactionRow
numbered time height next [] = []
numbered time height next (t ∷ ts) =
    record { id = next; transaction = t; time = time; height = height }
    ∷ numbered time height (suc next) ts

-- RETURNING id, "txIndex"
unfoldable pub returned : ℕ → List Transaction → Table ℕ ℕ
returned next [] = []
returned next (t ∷ ts) = (t.tx_index, next) ∷ returned (suc next) ts

-- the range of INTEGER, of a number that is not negative
abbrev is_integer : ℕ → Bool
is_integer n = ltb n 2147483648

abbrev are_integers : List ℕ → Bool
are_integers [] = true
are_integers (n ∷ ns) = is_integer n && are_integers ns

-- what the columns take: `id`, which counts on, "height", `code` and "txIndex"
unfoldable pub takes_transactions : Block → TxDb → Bool
takes_transactions b s =
    is_integer b.height
    && ltb (s.next_id + length b.transactions) 2147483649
    && are_integers (map (λ t. t.code) b.transactions)
    && are_integers (map (λ t. t.tx_index) b.transactions)

unfoldable pub insert_transactions : Block → Exec TxDb (Table ℕ ℕ)
insert_transactions b = statement (λ s.
    if takes_transactions b s
    then some (
      returned s.next_id b.transactions,
      record s {
        next_id = s.next_id + length b.transactions;
        transactions = s.transactions ++ numbered b.time b.height s.next_id b.transactions;
      },
    )
    else none)

-- `.map((m) => ({ …, transactionId: txIdByIndex.get(m.txIndex) }))`; the indexes differ
unfoldable pub with_ids : {A : Type 0} → Table ℕ ℕ → List (Item A) → List (Row A)
with_ids ids items =
    map (λ m. record { content = m.content; transaction_id = lookup m.tx_index ids }) items

unfoldable pub takes_messages : List (Item Message) → Bool
takes_messages ms = are_integers (map (λ m. m.content.index) ms)

-- `insertBlock`
unfoldable pub insert_messages : Table ℕ ℕ → List (Item Message) → Action TxDb
insert_messages ids [] = pure tt
insert_messages ids (m ∷ ms) = statement (λ s.
    if takes_messages (m ∷ ms)
    then some (tt, record s { messages = s.messages ++ with_ids ids (m ∷ ms) })
    else none)

abbrev is_id : ℕ → List ℕ → Bool
is_id n [] = false
is_id n (id ∷ ids) = nat_beq n id || is_id n ids

-- "TransactionSigner_authenticatorId_fkey"
abbrev is_authenticator : Option ℕ → List ℕ → Bool
is_authenticator none ids = true
is_authenticator (some n) ids = is_id n ids

abbrev is_sequence : Option ℕ → Bool
is_sequence none = true
is_sequence (some n) = is_integer n

unfoldable pub takes_signers : List (Item TransactionSigner) → List ℕ → Bool
takes_signers [] ids = true
takes_signers (g ∷ gs) ids =
    is_authenticator g.content.authenticator_id ids
    && is_sequence g.content.sequence
    && is_integer g.content.message_index
    && takes_signers gs ids

unfoldable pub insert_signers : Table ℕ ℕ → List (Item TransactionSigner) → Action TxDb
insert_signers ids [] = pure tt
insert_signers ids (m ∷ ms) = statement (λ s.
    if takes_signers (m ∷ ms) s.authenticators
    then some (tt, record s { signers = s.signers ++ with_ids ids (m ∷ ms) })
    else none)

unfoldable pub insert_block : Block → Action TxDb
insert_block b = elim b.transactions [
  | [] ↦ pure tt
  | _ ∷ _ ↦ insert_transactions b >>= λ ids.
      insert_messages ids b.messages >> insert_signers ids b.signers
]

-- A message of the core database; `decoded` is `none` where its value is null, and has the signer
-- where one is found.
pub record MessageCore : Type 0 where
  pub type_url : String
  pub index : ℕ
  pub decoded : Option (Message × Option String)

-- `sequence` is that of the first signer info, `selected_authenticators` what
-- `extractSelectedAuthenticators` reads
pub record TransactionCore : Type 0 where
  pub hash : String
  pub code : ℕ
  pub fee : String
  pub gas_used : String
  pub gas_wanted : String
  pub memo : String
  pub fee_payer : Option String
  pub sequence : Option ℕ
  pub selected_authenticators : Option (List ℕ)
  pub messages : List MessageCore

-- SKIPPED_MESSAGE_TYPE_URLS
unfoldable pub is_skipped : String → Bool
is_skipped type_url = type_url == "/ibc.core.client.v1.MsgUpdateClient"

-- the pushes to `allMessages` of one transaction
unfoldable pub messages_of : List MessageCore → List Message
messages_of [] = []
messages_of (m ∷ ms) =
    let rest = messages_of ms in
    if is_skipped m.type_url then rest else elim m.decoded [ none ↦ rest | some d ↦ d.0 ∷ rest ]

-- `selectedAuthenticators?.[m.index]`
abbrev pub authenticator_of : Option (List ℕ) → ℕ → Option ℕ
authenticator_of none index = none
authenticator_of (some ids) index = get_elem? ids index

-- `if (signerAddress)`
abbrev pub signer_row :
    TransactionCore → MessageCore → Option (Message × Option String) → List TransactionSigner
signer_row t m none = []
signer_row t m (some (_, none)) = []
signer_row t m (some (_, some address)) =
    record {
      transaction_hash = t.hash;
      signer_address = address;
      message_index = m.index;
      authenticator_id = authenticator_of t.selected_authenticators m.index;
      sequence = t.sequence;
    }
    ∷ []

-- the pushes to `allSigners` of one transaction
unfoldable pub signers_of : TransactionCore → List MessageCore → List TransactionSigner
signers_of t [] = []
signers_of t (m ∷ ms) =
    let rest = signers_of t ms in
    if is_skipped m.type_url then rest else signer_row t m m.decoded ++ rest

-- the pushes of the loop over the transactions from index `i`
unfoldable pub items_from :
    {A : Type 0} → (TransactionCore → List A) → ℕ → List TransactionCore → List (Item A)
items_from f i [] = []
items_from f i (t ∷ ts) =
    map (λ c. record { content = c; tx_index = i }) (f t) ++ items_from f (suc i) ts

unfoldable pub transactions_from : ℕ → List TransactionCore → List Transaction
transactions_from i [] = []
transactions_from i (t ∷ ts) =
    record {
      hash = t.hash;
      code = t.code;
      fee = t.fee;
      gas_used = t.gas_used;
      gas_wanted = t.gas_wanted;
      memo = t.memo;
      fee_payer = t.fee_payer;
      tx_index = i;
    }
    ∷ transactions_from (suc i) ts

-- `catch (error) { console.error(…) }`
unfoldable pub swallowed : Action TxDb → Action TxDb
swallowed m tx = let (r, tx') = m tx in (ok tt, tx')

-- the argument of `insertBlock`
unfoldable pub block_of : ℕ → ℕ → List TransactionCore → Block
block_of height time ts = record {
  height = height;
  time = time;
  transactions = transactions_from 0 ts;
  messages = items_from (λ u. messages_of u.messages) 0 ts;
  signers = items_from (λ u. signers_of u u.messages) 0 ts;
}

-- `syncTransactions` of a block's height, time and transactions
unfoldable pub sync_transactions : ℕ → ℕ → List TransactionCore → Action TxDb
sync_transactions height time [] = pure tt
sync_transactions height time (t ∷ ts) = swallowed (insert_block (block_of height time (t ∷ ts)))
