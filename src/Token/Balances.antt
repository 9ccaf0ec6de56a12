-- ===== src/Token/Balances.antt =====
-- "TokenBalance" against its rebuild from the ledger: createTokenTransaction of postgres/token.ts
-- keeps the two equal.
pub mod Posting
use ixo_blocksync.Base.{
  ◌≡◌, refl, sym, ◌∙◌, ap, Bool, true, false, String, Option, none, some, List, [], ◌∷◌, ◌++◌, ◌&&◌,
  arith, ◌==◌, string_eq, pair_eq, eq_iff, pair_beq_iff, Bool-cases, Option-cases, inl, inr,
  if_congr, eq_of_beq, if◌then◌else◌,
}
use ixo_blocksync.Base.Int.{ℤ, pos, ◌+ℤ◌, neg, is_zero, int_laws, pos_part, neg_part}
use ixo_blocksync.Base.Table.{
  Table, lookup, upsert, delete, upserted, HasUniqueKeys, lookup-upsert, lookup-delete,
  upsert-HasUniqueKeys, delete-HasUniqueKeys,
}
use ixo_blocksync.Pg.{Result, ok, err, constraint_violation, Tx, pure, statement, query, ◌>>=◌}
use ixo_blocksync.Token.{
  TokenTransaction, Balance, Ledger, add, is_trivial, insert_token_transaction,
  upsert_token_balance, delete_token_balance, apply_token_balance_delta, credit_recipient,
  debit_sender, create_token_transaction,
}
use ixo_blocksync.Token.Sums.{
  held, held-having, nothing-add, add-nothing, add_assoc, nothing_of_is_trivial, holdings-append,
}
use ixo_blocksync.Token.Spec.{nothing, credit, debit, holdings, having}

abbrev pub Balances : Type 0
Balances = Table (String × String) Balance

abbrev key_eq : String × String → String × String → Bool
key_eq x y = x == y

-- The table has one row for each address and token whose sums over the ledger are not all zero.
abbrev pub Agrees : Balances → (String → String → Balance) → Type 0
Agrees table f = (a k : String) → lookup (a, k) table ≡ having (f a k)

pub record IsSynced (s : Ledger) : Type 0 where
  pub unique : HasUniqueKeys s.balances
  pub agrees : Agrees s.balances (λ a k. holdings a k s.transactions)

-- What a delta leaves in the table, RETURNING and DELETE included.
settle : String → String → Balance → Balances → Balances
settle a k d table =
    let row = upserted d (λ old. add old d) (lookup (a, k) table) in
    let table' = upsert (a, k) d (λ old. add old d) table in
    if is_trivial row then delete (a, k) table' else table'

settle-HasUniqueKeys :
    (a k : String) (d : Balance) (table : Balances)
    → HasUniqueKeys table
    → HasUniqueKeys (settle a k d table)
unfolding settle
settle-HasUniqueKeys a k d table h =
    let row = upserted d (λ old. add old d) (lookup (a, k) table) in
    let table' = upsert (a, k) d (λ old. add old d) table in
    let h' = upsert-HasUniqueKeys (a, k) d (λ old. add old d) table h in
    elim (Bool-cases (is_trivial row)) [
      | inl e ↦ rw e (delete-HasUniqueKeys (a, k) table' h')
      | inr e ↦ rw e h'
    ]

pub upserted-eq-held :
    (d : Balance) (o : Option Balance) → upserted d (λ old. add old d) o ≡ add (held o) d
upserted-eq-held d none = sym (nothing-add d)
upserted-eq-held d (some b) = refl

lookup-settle :
    (a k : String) (d : Balance) (table : Balances) (j : String × String)
    → HasUniqueKeys table
    → lookup j (settle a k d table)
      ≡ (if (a, k) == j then having (add (held (lookup (a, k) table)) d) else lookup j table)
unfolding settle having
lookup-settle a k d table j h =
    let merge = λ (old : Balance). add old d in
    let row = upserted d merge (lookup (a, k) table) in
    let table' = upsert (a, k) d merge table in
    let h' = upsert-HasUniqueKeys (a, k) d merge table h in
    let same : having row ≡ having (add (held (lookup (a, k) table)) d) =
      ap having (upserted-eq-held d (lookup (a, k) table)) in
    elim (Bool-cases (is_trivial row)) [
      | inl e ↦ rw e (
          lookup-delete (a, k) j table' h'
          ∙ if_congr ((a, k) == j) (λ _. rw e at same)
              (λ f. lookup-upsert (a, k) j d merge table ∙ rw f))
      | inr e ↦ rw e (
          lookup-upsert (a, k) j d merge table
          ∙ if_congr ((a, k) == j) (λ _. rw e at same) (λ _. refl))
    ]

settle-Agrees :
    (a k : String) (d : Balance) (table : Balances) (f g : String → String → Balance)
    → HasUniqueKeys table
    → Agrees table f
    → ((b j : String) → g b j ≡ (if key_eq (a, k) (b, j) then add (f b j) d else f b j))
    → Agrees (settle a k d table) g
settle-Agrees a k d table f g unique agrees step b j =
    lookup-settle a k d table (b, j) unique ∙ elim (Bool-cases (key_eq (a, k) (b, j))) [
      | inl e ↦
          let same : ◌≡◌ {A = String × String} (a, k) (b, j) = eq_of_beq _ _ e in
          rw (step b j, e)
            (ap (λ o. having (add (held o) d)) (agrees a k)
              ∙ ap (λ x. having (add x d)) (held-having (f a k))
              ∙ ap (λ q. having (add (f q.0 q.1) d)) same)
      | inr e ↦ rw (step b j, e) (agrees b j)
    ]

abbrev pub credit_delta : TokenTransaction → Balance
credit_delta t = record {
  amount = t.amount;
  minted = if t.sender == "" then t.amount else pos 0;
  retired = pos 0;
}

abbrev pub debit_delta : TokenTransaction → Balance
debit_delta t = record {
  amount = neg t.amount;
  minted = pos 0;
  retired = if t.to == "" then t.amount else pos 0;
}

-- The two halves of `createTokenTransaction`, as changes of the table.
pub credited : TokenTransaction → Balances → Balances
credited t table = if t.to == "" then table else settle t.to t.token_id (credit_delta t) table

pub debited : TokenTransaction → Balances → Balances
debited t table = if t.sender == "" then table else settle t.sender t.token_id (debit_delta t) table

credit_of_empty :
    (t : TokenTransaction) (a k : String) → (t.to == "") ≡ true → credit a k t ≡ nothing
unfolding credit
credit_of_empty t a k e = ground arith

credit-add :
    (t : TokenTransaction) (a k : String) (x : Balance)
    → (t.to == "") ≡ false
    → add x (credit a k t)
      ≡ (if key_eq (t.to, t.token_id) (a, k) then add x (credit_delta t) else x)
unfolding credit
credit-add t a k x e = ground (arith, add-nothing x)

debit_of_empty :
    (t : TokenTransaction) (a k : String) → (t.sender == "") ≡ true → debit a k t ≡ nothing
unfolding debit
debit_of_empty t a k e = ground arith

pub debit-add :
    (t : TokenTransaction) (a k : String) (x : Balance)
    → (t.sender == "") ≡ false
    → add x (debit a k t)
      ≡ (if key_eq (t.sender, t.token_id) (a, k) then add x (debit_delta t) else x)
unfolding debit
debit-add t a k x e = ground (arith, add-nothing x)

module _ (t : TokenTransaction) (table : Balances) (f : String → String → Balance)
    (unique : HasUniqueKeys table) (agrees : Agrees table f) where
  pub credited-Agrees : Agrees (credited t table) (λ a k. add (f a k) (credit a k t))
  unfolding credited
  credited-Agrees a k = elim (Bool-cases (t.to == "")) [
    | inl e ↦ rw (e, credit_of_empty t a k e, add-nothing) (agrees a k)
    | inr e ↦ rw e (
        settle-Agrees t.to t.token_id (credit_delta t) table f _ unique agrees
          (λ b j. credit-add t b j (f b j) e) a k)
  ]

  debited-Agrees : Agrees (debited t table) (λ a k. add (f a k) (debit a k t))
  unfolding debited
  debited-Agrees a k = elim (Bool-cases (t.sender == "")) [
    | inl e ↦ rw (e, debit_of_empty t a k e, add-nothing) (agrees a k)
    | inr e ↦ rw e (
        settle-Agrees t.sender t.token_id (debit_delta t) table f _ unique agrees
          (λ b j. debit-add t b j (f b j) e) a k)
  ]

  credited-HasUniqueKeys : HasUniqueKeys (credited t table)
  unfolding credited
  credited-HasUniqueKeys = elim (Bool-cases (t.to == "")) [
    | inl e ↦ rw e unique
    | inr e ↦ rw e (settle-HasUniqueKeys t.to t.token_id (credit_delta t) table unique)
  ]

  debited-HasUniqueKeys : HasUniqueKeys (debited t table)
  unfolding debited
  debited-HasUniqueKeys = elim (Bool-cases (t.sender == "")) [
    | inl e ↦ rw e unique
    | inr e ↦ rw e (settle-HasUniqueKeys t.sender t.token_id (debit_delta t) table unique)
  ]

-- The ledger after `createTokenTransaction` has run to its end.
unfoldable pub posted : TokenTransaction → Ledger → Ledger
posted t s = record s {
  transactions = s.transactions ++ t ∷ [];
  balances = debited t (credited t s.balances);
}

pub posted-IsSynced : (t : TokenTransaction) (s : Ledger) → IsSynced s → IsSynced (posted t s)
unfolding posted
posted-IsSynced t s h =
    let unique' =
      credited-HasUniqueKeys t s.balances (λ a k. holdings a k s.transactions) h.unique h.agrees in
    let agrees' =
      credited-Agrees t s.balances (λ a k. holdings a k s.transactions) h.unique h.agrees in
    record {
      unique = debited-HasUniqueKeys t (credited t s.balances) _ unique' agrees';
      agrees = λ a k.
          debited-Agrees t (credited t s.balances) _ unique' agrees' a k
          ∙ ap having (sym (holdings-append a k t s.transactions));
    }
