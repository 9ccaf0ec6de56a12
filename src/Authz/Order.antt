-- ===== src/Authz/Order.antt =====
-- A grant that two events report: the EventGrant of the chain, and the richer event of the entity
-- module that names the entity too (the authz cases of event_data_sync.ts).
use ixo_blocksync.Base.{
  ◌≡◌, refl, sym, subst, eq_of_beq, ap, ◌∙◌, ℕ, true, false, String, Option, some, none, List, ◌==◌,
  ◌||◌, Bool-cases, inl, inr, string_eq, pair_eq, if◌then◌else◌,
}
use ixo_blocksync.Base.Table.{lookup, upsert, upserted, lookup-upsert}
use ixo_blocksync.Pg.{ok, running, pure, query, ◌>>=◌, ◌>>◌}
use ixo_blocksync.Authz.{
  GrantKey, Grant, AuthzDb, upsert_authz_grant, msg_type_url_for_authorization,
}
use ixo_blocksync.Authz.Events.{
  LiveGrant, TxMessage, AuthzBlock, grant_authz, entity_authz_created, find_message, row_of_grant,
  write_row, write_mapped, sync_authz_event,
}

-- The row of a grant made through the entity `id` in the transaction `hash`.
abbrev pub of_entity : AuthzBlock → String → String → LiveGrant → Grant
of_entity b id hash g = record {
  authorization_type = some g.payload.authorization_type;
  authorization = some g.payload.authorization;
  expiration = g.payload.expiration;
  entity_id = some id;
  granted_at_height = b.height;
  granted_at_time = b.time;
  granted_tx_hash = some hash;
}

-- The two messages whose grants the richer event reports.
abbrev pub IsReported : TxMessage → Type 0
IsReported m =
    (m.type_url == "/ixo.entity.v1beta1.MsgGrantEntityAccountAuthz"
      || m.type_url == "/ixo.claims.v1beta1.MsgCreateClaimAuthorization")
    ≡ true

not_grant :
    (m : TxMessage) → IsReported m → (m.type_url == "/cosmos.authz.v1beta1.MsgGrant") ≡ false
not_grant m reported =
    let entity : String = "/ixo.entity.v1beta1.MsgGrantEntityAccountAuthz" in
    let claim : String = "/ixo.claims.v1beta1.MsgCreateClaimAuthorization" in
    let differs : (url : String)
        → url ≡ m.type_url
        → (url == "/cosmos.authz.v1beta1.MsgGrant") ≡ false
        → (m.type_url == "/cosmos.authz.v1beta1.MsgGrant") ≡ false =
      λ url same no.
        subst (λ (u : String). (u == "/cosmos.authz.v1beta1.MsgGrant") ≡ false) same no in
    elim (Bool-cases (m.type_url == entity)) [
      | inl e ↦ differs entity (sym (eq_of_beq m.type_url entity e)) refl
      | inr e ↦ differs claim (sym (eq_of_beq m.type_url claim (rw e at reported))) refl
    ]

upserted_same : (g : Grant) (o : Option Grant) → upserted g (λ old. g) o ≡ g
upserted_same g none = refl
upserted_same g (some x) = refl

module _ (authz_grants_query : ℕ → String → String → Option (List LiveGrant)) (b : AuthzBlock) where
  row_of_grant-reported :
      (key : GrantKey) (hash : String) (i : ℕ) (m : TxMessage)
      → find_message b hash i ≡ some m
      → IsReported m
      → (key.1.1 == "/ixo.claims.v1beta1.MsgWithdrawPayment") ≡ false
      → row_of_grant authz_grants_query b key hash i ≡ none
  unfolding row_of_grant
  row_of_grant-reported key hash i m found reported other =
      rw (other, found, not_grant m reported, reported) refl

  -- A message that grants through an entity is reported by an EventGrant and by the richer event.
  -- Where the message type of the authorization is known, and is not that of a withdrawal, the two
  -- events succeed in either order and leave the same index: under the granter, the grantee and the
  -- message type the whole row of the richer event, with its entity, and every other key as it was,
  -- whatever the archive node answers.
  pub sync_authz_event-any_order :
      (granter grantee url id hash : String) (i : ℕ) (m : TxMessage) (g : LiveGrant) (t : AuthzDb)
      → find_message b hash i ≡ some m
      → IsReported m
      → msg_type_url_for_authorization g.payload.authorization_type g.decoded ≡ some url
      → (url == "") ≡ false
      → (url == "/ixo.claims.v1beta1.MsgWithdrawPayment") ≡ false
      → let plain =
          sync_authz_event authz_grants_query b (grant_authz (granter, (grantee, url)) hash i) in
        let rich =
          sync_authz_event authz_grants_query b
            (entity_authz_created granter grantee id hash (some g)) in
        (t' : AuthzDb) × ((plain >> rich) (running t) ≡ (ok tt, running t'))
        × ((rich >> plain) (running t) ≡ (ok tt, running t'))
        × ((k : GrantKey)
            → lookup k t' ≡ (
                if (granter, (grantee, url)) == k
                then some (of_entity b id hash g)
                else lookup k t))
  unfolding sync_authz_event write_row write_mapped upsert_authz_grant query pure ◌>>=◌
  sync_authz_event-any_order granter grantee url id hash i m g t found reported mapped named other =
      let key : GrantKey = (granter, (grantee, url)) in
      let row = of_entity b id hash g in
      let nothing = row_of_grant-reported key hash i m found reported other in
      (
        upsert key row (λ old. row) t,
        rw (nothing, mapped, named) refl,
        rw (nothing, mapped, named) refl,
        λ k.
            lookup-upsert key k row (λ old. row) t
            ∙ ap (λ v. if key == k then some v else lookup k t) (upserted_same row (lookup key t)),
      )
