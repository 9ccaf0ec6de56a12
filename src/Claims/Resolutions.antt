-- ===== src/Claims/Resolutions.antt =====
-- The resolution of a dispute (`resolveDispute`).
use ixo_blocksync.Base.{
  ◌≡◌, refl, sym, ◌∙◌, ap, ◌⊎◌, inl, inr, ℕ, true, false, String, Option, none, some, List, [], ◌∷◌,
  ◌==◌, arith, nat_eq, string_eq, Bool-cases,
}
use ixo_blocksync.Base.Table.{lookup, upserted, lookup-upsert_self}
use ixo_blocksync.Pg.{ok, running, query}
use ixo_blocksync.Claims.{
  Dispute, DisputeResolution, ClaimDb, is_open_for, has_open, latest_open, settle, settled,
  resolve_dispute,
}
use ixo_blocksync.Claims.Disputes.{HasOneOpen, has_open-settle}

abbrev Disputes : Type 0
Disputes = List (ℕ × Dispute)

latest_open-none :
    (subject : String) (role : ℕ) (ds : Disputes)
    → has_open subject role ds ≡ false
    → latest_open subject role ds ≡ none
unfolding has_open latest_open
latest_open-none subject role [] h = refl
latest_open-none subject role ((i, d) ∷ ds) h = ground (arith, latest_open-none subject role ds, h)

-- The open dispute has no other one behind it.
alone :
    (subject : String) (role : ℕ) (d : Dispute) (ds : Disputes)
    → is_open_for subject role d ≡ true
    → ((d.status == 0) ≡ false) ⊎ (has_open d.subject_id d.target_role ds ≡ false)
    → has_open subject role ds ≡ false
alone subject role d ds o (inl closed) = ground (arith, o, closed)
alone subject role d ds o (inr h) =
    ap (λ s. has_open s role ds) (sym (subject_of o))
    ∙ ap (λ r. has_open d.subject_id r ds) (sym (role_of o))
    ∙ h
  where
    subject_of : is_open_for subject role d ≡ true → d.subject_id ≡ subject
    subject_of o = ground (arith, string_eq.beq_iff d.subject_id subject, o)

    role_of : is_open_for subject role d ≡ true → d.target_role ≡ role
    role_of o = ground (arith, nat_eq.beq_iff d.target_role role, o)

id_of : ℕ → Option (ℕ × Dispute) → ℕ
id_of n none = n
id_of n (some (id, d)) = id

settle-closes :
    (subject : String) (role id status : ℕ) (payload : String) (e : Dispute) (ds : Disputes)
    → (status == 0) ≡ false
    → HasOneOpen ds
    → latest_open subject role ds ≡ some (id, e)
    → has_open subject role (settle id status payload ds) ≡ false
unfolding has_open latest_open settle id_of
settle-closes subject role id status payload e [] h one found = refl
settle-closes subject role id status payload e ((i, d) ∷ ds) h (first, one) found =
    elim (Bool-cases (is_open_for subject role d)) [
      | inl o ↦ rw (same o, h) (closed_rest o)
      | inr o ↦ kept o (settle-closes subject role id status payload e ds h one (rw o at found))
    ]
  where
    closed_rest :
        is_open_for subject role d ≡ true
        → has_open subject role (settle id status payload ds) ≡ false
    closed_rest o =
        has_open-settle subject role id status payload ds h (alone subject role d ds o first)

    same : is_open_for subject role d ≡ true → (i == id) ≡ true
    same o = (nat_eq.beq_iff i id).1 (
        ap (id_of i)
          (rw (o, latest_open-none subject role ds (alone subject role d ds o first)) at found))

    kept :
        is_open_for subject role d ≡ false
        → has_open subject role (settle id status payload ds) ≡ false
        → has_open subject role (settle id status payload ((i, d) ∷ ds)) ≡ false
    kept o rest = elim (Bool-cases (i == id)) [ inl q ↦ rw (q, h) rest | inr q ↦ rw (q, o) rest ]

-- A resolution, where a dispute of the subject and role is open and the new status is not OPEN,
-- stores itself at that dispute's id (one that is there stays) and leaves no open dispute for them;
-- and the same resolution again changes nothing.
pub resolve_dispute-closes :
    (subject : String) (role id status : ℕ) (payload : String) (r : DisputeResolution) (e : Dispute)
    (s : ClaimDb)
    → (status == 0) ≡ false
    → HasOneOpen s.disputes
    → latest_open subject role s.disputes ≡ some (id, e)
    → (s' : ClaimDb) × (resolve_dispute subject role status payload r (running s)
        ≡ (ok tt, running s'))
      × (has_open subject role s'.disputes ≡ false)
      × (lookup id s'.resolutions ≡ some (upserted r (λ old. old) (lookup id s.resolutions)))
      × (resolve_dispute subject role status payload r (running s') ≡ (ok tt, running s'))
unfolding resolve_dispute query
resolve_dispute-closes subject role id status payload r e s h one found =
    let closed = settle-closes subject role id status payload e s.disputes h one found in
    (
      settled status payload r (some (id, e)) s,
      rw found,
      closed,
      lookup-upsert_self id r (λ old. old) s.resolutions,
      rw (latest_open-none subject role (settle id status payload s.disputes) closed),
    )
