-- ===== src/Token/Balances/Posting.antt =====
-- createTokenTransaction of postgres/token.ts runs to its end where the token is indexed and its
-- columns take the amounts.
use ixo_blocksync.Base.{
  ◌≡◌, refl, ◌∙◌, subst, ◌⊎◌, inl, inr, ◌+◌, ◌<◌, true, false, String, none, some, [], ◌∷◌, ◌++◌,
  arith, string_eq, pair_eq, beq_refl, Bool-cases, ◌==◌, ◌&&◌,
}
use ixo_blocksync.Base.Int.{is_bigint}
use ixo_blocksync.Token.Spec.{credit, holdings}
use ixo_blocksync.Token.Sums.{held-having, holdings-append}
use ixo_blocksync.Token.Volume.{
  size, volume, in_range_of_bounded, add-IsBounded, holdings-IsBounded, volume-one,
  credit_delta-IsBounded, debit_delta-IsBounded,
}
use ixo_blocksync.Base.Table.{lookup, upserted}
use ixo_blocksync.Pg.{ok, err, constraint_violation, running, pure, statement, query, ◌>>=◌}
use ixo_blocksync.Token.{
  TokenTransaction, Balance, Ledger, add, is_in_range, insert_token_transaction,
  upsert_token_balance, delete_token_balance, apply_token_balance_delta, credit_recipient,
  debit_sender, create_token_transaction,
}
use ixo_blocksync.Token.Balances.{
  IsSynced, settle, credit_delta, debit_delta, credited, debited, posted, posted-IsSynced,
  upserted-eq-held, credited-Agrees, debit-add,
}

module _ (s : Ledger) where
  apply_token_balance_delta_run :
      (a k : String) (d : Balance)
      → lookup k s.tokens ≡ some tt
      → is_in_range d ≡ true
      → is_in_range (upserted d (λ old. add old d) (lookup (a, k) s.balances)) ≡ true
      → apply_token_balance_delta a k d (running s)
        ≡ (ok tt, running (record s { balances = settle a k d s.balances }))
  unfolding apply_token_balance_delta settle upsert_token_balance delete_token_balance statement
      query ◌>>=◌
  apply_token_balance_delta_run a k d h fits row =
      let both : (is_in_range d
            && is_in_range (upserted d (λ old. add old d) (lookup (a, k) s.balances)))
          ≡ true =
        rw (fits, row) refl in
      rw both (ground arith)

  credit_recipient_run :
      (t : TokenTransaction)
      → lookup t.token_id s.tokens ≡ some tt
      → is_in_range (credit_delta t) ≡ true
      → is_in_range (
          upserted
            (credit_delta t)
            (λ old. add old (credit_delta t))
            (lookup (t.to, t.token_id) s.balances))
        ≡ true
      → credit_recipient t (running s)
        ≡ (ok tt, running (record s { balances = credited t s.balances }))
  unfolding credit_recipient credited pure
  credit_recipient_run t h fits row =
      ground (arith, apply_token_balance_delta_run t.to t.token_id (credit_delta t) h fits row)

  debit_sender_run :
      (t : TokenTransaction)
      → lookup t.token_id s.tokens ≡ some tt
      → is_in_range (debit_delta t) ≡ true
      → (t.sender == "") ≡ true
        ⊎ (is_in_range (
              upserted
                (debit_delta t)
                (λ old. add old (debit_delta t))
                (lookup (t.sender, t.token_id) s.balances))
            ≡ true)
      → debit_sender t (running s) ≡ (ok tt, running (record s { balances = debited t s.balances }))
  unfolding debit_sender debited pure
  debit_sender_run t h fits (inl none_sent) = rw none_sent refl
  debit_sender_run t h fits (inr row) =
      ground (arith, apply_token_balance_delta_run t.sender t.token_id (debit_delta t) h fits row)

module _ (t : TokenTransaction) (s : Ledger) where
  insert_token_transaction_run :
      lookup t.token_id s.tokens ≡ some tt
      → is_bigint t.amount ≡ true
      → statement (insert_token_transaction t) (running s)
        ≡ (ok tt, running (record s { transactions = s.transactions ++ t ∷ [] }))
  unfolding statement insert_token_transaction
  insert_token_transaction_run h fits = rw (fits, h) refl

-- The sizes of the amounts of the token of `t`, its own included, add up to less than 2 ^ 63.
abbrev pub IsSmall : TokenTransaction → Ledger → Type 0
IsSmall t s = volume t.token_id s.transactions + size t.amount < 9223372036854775808

credit_row :
    (t : TokenTransaction) (s : Ledger)
    → IsSynced s
    → IsSmall t s
    → is_in_range (
        upserted
          (credit_delta t)
          (λ old. add old (credit_delta t))
          (lookup (t.to, t.token_id) s.balances))
      ≡ true
credit_row t s synced small =
    rw
      (
        upserted-eq-held (credit_delta t) (lookup (t.to, t.token_id) s.balances),
        synced.agrees t.to t.token_id,
        held-having (holdings t.to t.token_id s.transactions),
      )
      (in_range_of_bounded (volume t.token_id s.transactions + size t.amount)
        (add (holdings t.to t.token_id s.transactions) (credit_delta t)) small
        (add-IsBounded (volume t.token_id s.transactions) (size t.amount)
          (holdings t.to t.token_id s.transactions) (credit_delta t)
          (holdings-IsBounded t.to t.token_id s.transactions) (credit_delta-IsBounded t)))

debit_row :
    (t : TokenTransaction) (s : Ledger)
    → IsSynced s
    → IsSmall t s
    → (t.sender == "") ≡ false
    → is_in_range (
        upserted
          (debit_delta t)
          (λ old. add old (debit_delta t))
          (lookup (t.sender, t.token_id) (credited t s.balances)))
      ≡ true
debit_row t s synced small sent =
    let f = holdings t.sender t.token_id s.transactions in
    let key : String × String = (t.sender, t.token_id) in
    let whole : holdings t.sender t.token_id (s.transactions ++ t ∷ [])
        ≡ add (add f (credit t.sender t.token_id t)) (debit_delta t) =
      holdings-append t.sender t.token_id t s.transactions
      ∙ debit-add t t.sender t.token_id (add f (credit t.sender t.token_id t)) sent
      ∙ rw (beq_refl key) refl in
    rw
      (
        upserted-eq-held (debit_delta t) (lookup (t.sender, t.token_id) (credited t s.balances)),
        credited-Agrees t s.balances (λ a k. holdings a k s.transactions) synced.unique
            synced.agrees t.sender t.token_id,
        held-having (add f (credit t.sender t.token_id t)),
      )
      (subst (λ b. is_in_range b ≡ true) whole
        (in_range_of_bounded (volume t.token_id (s.transactions ++ t ∷ []))
          (holdings t.sender t.token_id (s.transactions ++ t ∷ []))
          (omega (arith, small, volume-one t.token_id s.transactions t (beq_refl t.token_id)))
          (holdings-IsBounded t.sender t.token_id (s.transactions ++ t ∷ []))))

pub create_token_transaction_run :
    (t : TokenTransaction) (s : Ledger)
    → IsSynced s
    → IsSmall t s
    → lookup t.token_id s.tokens ≡ some tt
    → create_token_transaction t (running s) ≡ (ok tt, running (posted t s))
unfolding create_token_transaction posted ◌>>=◌
create_token_transaction_run t s synced small h =
    let s' : Ledger = record s { transactions = s.transactions ++ t ∷ [] } in
    let s'' : Ledger = record s' { balances = credited t s.balances } in
    let own : size t.amount < 9223372036854775808 = omega (arith, small) in
    rw
      (
        insert_token_transaction_run t s h (ground (arith, own)),
        credit_recipient_run s' t h
            (in_range_of_bounded (size t.amount) (credit_delta t) own (credit_delta-IsBounded t))
            (credit_row t s synced small),
      )
      (debit_sender_run s'' t h
        (in_range_of_bounded (size t.amount) (debit_delta t) own (debit_delta-IsBounded t))
        (elim (Bool-cases (t.sender == "")) [
          | inl e ↦ inl e
          | inr e ↦ inr (debit_row t s synced small e)
        ]))

-- A token transaction of an indexed token is posted, where the sizes of the amounts of the token's
-- transactions, with it, add up to less than 2 ^ 63: the statements all succeed, the ledger has the
-- transaction at its end, and if "TokenBalance" was what the ledger gives for every address and
-- token, it is so again.
pub create_token_transaction-IsSynced :
    (t : TokenTransaction) (s : Ledger)
    → IsSynced s
    → IsSmall t s
    → lookup t.token_id s.tokens ≡ some tt
    → (s' : Ledger) × (create_token_transaction t (running s) ≡ (ok tt, running s'))
      × (s'.transactions ≡ s.transactions ++ t ∷ [])
      × IsSynced s'
unfolding posted
create_token_transaction-IsSynced t s synced small known = (
  posted t s,
  create_token_transaction_run t s synced small known,
  refl,
  posted-IsSynced t s synced,
)

-- A token transaction of a token that is not indexed is refused by the foreign key, at its first
-- statement: nothing is written, and the transaction is failed.
pub create_token_transaction_unknown :
    (t : TokenTransaction) (s : Ledger)
    → lookup t.token_id s.tokens ≡ none
    → create_token_transaction t (running s)
      ≡ (err constraint_violation, record { db = s; failed = true })
unfolding create_token_transaction insert_token_transaction statement ◌>>=◌
create_token_transaction_unknown t s h = ground arith
