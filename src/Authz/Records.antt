-- ===== src/Authz/Records.antt =====
-- What the authz index holds (postgres/authz.ts, the authz cases of event_data_sync.ts).
use ixo_blocksync.Base.{
  ◌≡◌, refl, ℕ, Bool, String, Option, none, some, List, arith, length, keep_if, ◌==◌, ◌||◌, not,
  Bool-cases, inl, inr, string_eq, pair_eq, pair_beq_iff,
}
use ixo_blocksync.Base.Table.{
  change, unless, lookup, HasUniqueKeys, lookup-update, lookup-delete_where,
  delete_where-HasUniqueKeys,
}
use ixo_blocksync.Pg.{Result, ok, Tx, running, Exec, pure, query, ◌>>=◌}
use ixo_blocksync.Authz.{
  GrantKey, Grant, AuthzDb, Payload, refreshed, is_expired, delete_expired_authz_grants,
  refresh_authz_grant_payload,
}
use ixo_blocksync.Authz.Events.{LiveGrant, hydrated, caught, refresh_match, refresh_consumed_grant}

-- the database after a run in a transaction that has not failed
abbrev pub after : {A : Type 0} → Exec AuthzDb A → AuthzDb → AuthzDb
after m t = (m (running t)).1.db

-- The sweep of a block succeeds, counts the expired rows, and leaves of every key what it had, but
-- where that has expired at the block's time; keys stay unique.
delete_expired_authz_grants_unless :
    (time : ℕ) (t : AuthzDb)
    → HasUniqueKeys t
    → ((delete_expired_authz_grants time (running t)).0
        ≡ ok (length (keep_if (λ row. is_expired time row.1) t)))
      × ((k : GrantKey)
          → lookup k (after (delete_expired_authz_grants time) t)
            ≡ unless (is_expired time) (lookup k t))
      × HasUniqueKeys (after (delete_expired_authz_grants time) t)
unfolding delete_expired_authz_grants query
delete_expired_authz_grants_unless time t h = (
  refl,
  λ k. lookup-delete_where (is_expired time) k t h,
  delete_where-HasUniqueKeys (is_expired time) t h,
)

-- What `refreshConsumedGrant` may not change of a row: who granted it through which entity, when.
abbrev SameProvenance : Option Grant → Option Grant → Type 0
SameProvenance none none = Unit
SameProvenance none (some new) = ⊥
SameProvenance (some old) none = ⊥
SameProvenance (some old) (some new) =
    (new.entity_id ≡ old.entity_id)
    × (new.granted_at_height ≡ old.granted_at_height)
    × (new.granted_at_time ≡ old.granted_at_time)
    × (new.granted_tx_hash ≡ old.granted_tx_hash)

Provenance-refl : (o : Option Grant) → SameProvenance o o
Provenance-refl none = tt
Provenance-refl (some g) = (refl, refl, refl, refl)

Provenance-change : (p : Payload) (o : Option Grant) → SameProvenance o (change (refreshed p) o)
Provenance-change p none = tt
Provenance-change p (some g) = (refl, refl, refl, refl)

-- A run that adds and removes no grant, changes no grant's provenance, and does not fail.
abbrev pub IsRefresh : Result (Unit {0}) × Tx AuthzDb → AuthzDb → Type 0
IsRefresh r t = (r.0 ≡ ok tt) × ((k : GrantKey) → SameProvenance (lookup k t) (lookup k r.1.db))

nothing-IsRefresh : (t : AuthzDb) → IsRefresh (pure tt (running t)) t
unfolding pure
nothing-IsRefresh t = (refl, λ k. Provenance-refl (lookup k t))

refresh_match-IsRefresh :
    (key : GrantKey) (found : Option LiveGrant) (t : AuthzDb)
    → IsRefresh (caught (refresh_match key found) (pure tt) (running t)) t
unfolding refresh_match refresh_authz_grant_payload caught query pure ◌>>=◌
refresh_match-IsRefresh key none t = nothing-IsRefresh t
refresh_match-IsRefresh key (some g) t = (
  refl,
  λ k. rw lookup-update (
      ground (
        arith,
        pair_beq_iff key k,
        Provenance-refl (lookup k t),
        Provenance-change g.payload (lookup k t),
      )),
)

-- A refresh adds and removes no grant and changes no grant's entity, height, time or transaction,
-- whether or not it is enabled and whatever the archive node answers, and it does not fail.
refresh_consumed_grant-IsRefresh :
    (authz_grants_query : ℕ → String → String → Option (List LiveGrant)) (enabled : Bool)
    (height : ℕ) (key : GrantKey) (t : AuthzDb)
    → IsRefresh (refresh_consumed_grant authz_grants_query enabled height key (running t)) t
unfolding refresh_consumed_grant
refresh_consumed_grant-IsRefresh q enabled height key t =
    elim (Bool-cases (not enabled || key.0 == "" || key.1.0 == "")) [
      | inl e ↦ rw e (nothing-IsRefresh t)
      | inr e ↦ rw e (refresh_match-IsRefresh key (hydrated q height key) t)
    ]
