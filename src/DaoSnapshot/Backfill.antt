-- ===== src/DaoSnapshot/Backfill.antt =====
-- The backfill of the proposals of a module (sync/daodao_snapshot.ts).
use ixo_blocksync.Base.{
  ◌≡◌, refl, ap, ◌∙◌, ℕ, suc, ◌+◌, true, false, String, Option, none, some, List, [], ◌∷◌, arith,
  pair_eq, string_eq, Bool-cases, Option-cases, inl, inr, All, length, ◌==◌, eq_of_beq,
}
use ixo_blocksync.Base.Table.{Table, lookup, upsert, upserted, lookup-upsert, lookup-upsert_self}
use ixo_blocksync.Pg.{ok, running, pure, query, statement, ◌>>=◌}
use ixo_blocksync.Dao.{DaoProposal, DaoDb, has_row, is_some, select, write_if}
use ixo_blocksync.Dao.ProposalSql.{create_dao_proposal}
use ixo_blocksync.Dao.Archive.{ProposalInfo}
use ixo_blocksync.DaoSnapshot.Steps.{Context, proposal_row, has_dao_proposal, backfill}

abbrev Proposals : Type 0
Proposals = Table (String × String) DaoProposal

-- The same row, where there was one.
abbrev pub IsKept {ℓ} : {V : Type ℓ} → Option V → Option V → Type ℓ
IsKept none o = Unit
IsKept (some row) o = o ≡ some row

abbrev pub KeepsRows : Proposals → Proposals → Type 0
KeepsRows t t' = (k : String × String) → IsKept (lookup k t) (lookup k t')

-- Each of the listed proposals of the module has a row.
abbrev pub AllThere : String → List (String × ProposalInfo) → Proposals → Type 0
AllThere m ps t = All (λ p. is_some (lookup (m, p.0) t) ≡ true) ps

IsKept-refl {ℓ} : {V : Type ℓ} (o : Option V) → IsKept o o
IsKept-refl none = tt
IsKept-refl (some row) = refl

IsKept-trans {ℓ} : {V : Type ℓ} (a b c : Option V) → IsKept a b → IsKept b c → IsKept a c
IsKept-trans none b c h k = tt
IsKept-trans (some row) b c h k = ground (arith, h, k)

IsKept-is_some {ℓ} :
    {V : Type ℓ} (a b : Option V) → IsKept a b → is_some a ≡ true → is_some b ≡ true
IsKept-is_some none b h there = cc there
IsKept-is_some (some row) b h there = rw h refl

upsert-KeepsRows :
    (k : String × String) (row : DaoProposal) (t : Proposals)
    → KeepsRows t (upsert k row (λ old. old) t)
upsert-KeepsRows k row t j = elim (Option-cases (lookup j t)) [
  | inl e ↦ rw e tt
  | inr (old, e) ↦ rw e (still old e)
]
  where
    still :
        (old : DaoProposal)
        → lookup j t ≡ some old
        → lookup j (upsert k row (λ old. old) t) ≡ some old
    still old e = elim (Bool-cases (k == j)) [
      | inl same ↦
          lookup-upsert k j row (λ old. old) t
          ∙ rw same (
              ap (λ o. some (upserted row (λ old. old) o))
                (ap (λ i. lookup i t) (eq_of_beq k j same) ∙ e))
      | inr other ↦ lookup-upsert k j row (λ old. old) t ∙ rw other e
    ]

length-upsert_new :
    (k : String × String) (row : DaoProposal) (t : Proposals)
    → is_some (lookup k t) ≡ false
    → length (upsert k row (λ old. old) t) ≡ suc (length t)
unfolding lookup upsert
length-upsert_new k row [] h = refl
length-upsert_new k row ((j, v) ∷ t) h = ground (arith, length-upsert_new k row t)

abbrev added : Context → String → String → ProposalInfo → DaoDb → DaoDb
added ctx m id p db = record db {
  proposals = upsert (m, id) (proposal_row p ctx) (λ old. old) db.proposals;
}

step_old :
    (ctx : Context) (m id : String) (p : ProposalInfo) (ps : List (String × ProposalInfo))
    (created : ℕ) (db : DaoDb)
    → has_row (m, id) db.proposals ≡ true
    → backfill ctx m ((id, p) ∷ ps) created (running db) ≡ backfill ctx m ps created (running db)
unfolding backfill has_dao_proposal select query pure ◌>>=◌
step_old ctx m id p ps created db e = rw e refl

step_new :
    (ctx : Context) (m id : String) (p : ProposalInfo) (ps : List (String × ProposalInfo))
    (created : ℕ) (db : DaoDb)
    → has_row m db.proposal_modules ≡ true
    → has_row (m, id) db.proposals ≡ false
    → backfill ctx m ((id, p) ∷ ps) created (running db)
      ≡ backfill ctx m ps (created + 1) (running (added ctx m id p db))
unfolding backfill has_dao_proposal create_dao_proposal select query write_if statement pure ◌>>=◌
step_new ctx m id p ps created db there e = rw (e, there) refl

stored_there :
    (k : String × String) (row : DaoProposal) (t : Proposals)
    → is_some (lookup k (upsert k row (λ old. old) t)) ≡ true
stored_there k row t = rw (lookup-upsert_self k row (λ old. old) t) refl

-- Where the module has a row, the backfill of its listed proposals succeeds. Every row of a proposal
-- stays as it is, every listed proposal has one, and the count that comes back has grown by the
-- number of the new rows.
pub backfill_run :
    (ctx : Context) (m : String) (ps : List (String × ProposalInfo)) (created : ℕ) (db : DaoDb)
    → has_row m db.proposal_modules ≡ true
    → (t : Proposals) × (n : ℕ) × (backfill ctx m ps created (running db)
        ≡ (ok n, running (record db { proposals = t })))
      × KeepsRows db.proposals t
      × AllThere m ps t
      × (length db.proposals + n ≡ length t + created)
unfolding backfill pure
backfill_run ctx m [] created db there =
    (db.proposals, created, refl, λ k. IsKept-refl (lookup k db.proposals), tt, refl)
backfill_run ctx m ((id, p) ∷ ps) created db there =
    elim (Bool-cases (has_row (m, id) db.proposals)) [
      | inl e ↦
          let (t, n, ran, kept, all, grown) = backfill_run ctx m ps created db there in
          (
            t,
            n,
            step_old ctx m id p ps created db e ∙ ran,
            kept,
            (IsKept-is_some (lookup (m, id) db.proposals) (lookup (m, id) t) (kept (m, id)) e, all),
            grown,
          )
      | inr e ↦
          let row = proposal_row p ctx in
          let t₁ : Proposals = upsert (m, id) row (λ old. old) db.proposals in
          let (t, n, ran, kept, all, grown) =
            backfill_run ctx m ps (created + 1) (added ctx m id p db) there in
          (
            t,
            n,
            step_new ctx m id p ps created db there e ∙ ran,
            λ k.
                IsKept-trans (lookup k db.proposals) (lookup k t₁) (lookup k t)
                  (upsert-KeepsRows (m, id) row db.proposals k) (kept k),
            (
              IsKept-is_some (lookup (m, id) t₁) (lookup (m, id) t) (kept (m, id))
                  (stored_there (m, id) row db.proposals),
              all,
            ),
            omega (arith, grown, length-upsert_new (m, id) row db.proposals e),
          )
    ]
