-- ===== src/Dao/Weights.antt =====
-- The weights of the voting modules over a cw20 staking contract: `processCw20StakeEvent` keeps
-- them the sum of what is staked.
use ixo_blocksync.Base.{
  ◌≡◌, ◌+◌, subst, eq_of_beq, refl, sym, ◌∙◌, ap, ◌≢◌, ◌⊎◌, true, false, String, Option, none, some,
  [], ◌∷◌, ◌==◌, arith, string_eq, pair_eq, Bool-cases, inl, inr, All,
}
use ixo_blocksync.Base.Int.{ℤ, pos, pos_part, neg_part, ◌+ℤ◌, neg, is_zero, int_laws}
use ixo_blocksync.Base.Table.{Table, lookup, upsert, delete, update_where}
use ixo_blocksync.Numbers.{Number, nan, integer, add_numeric}
use ixo_blocksync.Dao.{DaoVotingModule, DaoDb, is_value}
use ixo_blocksync.Dao.StakerSql.{sum_staked}
use ixo_blocksync.Dao.Sums.{or_zero, sum_staked-upsert, sum_staked-delete}

-- Every voting module over the contract has this weight.
abbrev pub AllWeigh : String → Number → Table String DaoVotingModule → Type 0
AllWeigh c n t =
    All (λ r. (is_value r.1.staking_contract c ≡ false) ⊎ (r.1.total_weight ≡ some n)) t

-- Every voting module over the contract weighs what is staked in it.
abbrev pub IsSettled : String → DaoDb → Type 0
IsSettled c db = AllWeigh c (sum_staked c db.cw20_stakers) db.voting_modules

abbrev pub weighed : String → Number → Table String DaoVotingModule → Table String DaoVotingModule
weighed c n t =
    update_where (λ row. is_value row.staking_contract c)
      (λ row. record row { total_weight = some n }) t

pub weighed-AllWeigh :
    (c : String) (n : Number) (t : Table String DaoVotingModule) → AllWeigh c n (weighed c n t)
unfolding update_where
weighed-AllWeigh c n [] = tt
weighed-AllWeigh c n ((k, row) ∷ t) = elim (Bool-cases (is_value row.staking_contract c)) [
  | inl e ↦ (inr (rw e), weighed-AllWeigh c n t)
  | inr e ↦ (inl (rw e e), weighed-AllWeigh c n t)
]

ne_of_beq : (c d : String) → (c == d) ≡ false → c ≢ d
ne_of_beq c d h = ground (arith, string_eq.beq_iff c d)

is_value_other :
    (o : Option String) (c d : String) → c ≢ d → is_value o c ≡ true → is_value o d ≡ false
is_value_other none c d h e = refl
is_value_other (some w) c d h e = ground (arith, string_eq.beq_iff w c, string_eq.beq_iff w d)

weighed-AllWeigh_other :
    (c d : String) (n m : Number) (t : Table String DaoVotingModule)
    → c ≢ d
    → AllWeigh d m t
    → AllWeigh d m (weighed c n t)
unfolding update_where
weighed-AllWeigh_other c d n m [] h a = tt
weighed-AllWeigh_other c d n m ((k, row) ∷ t) h (a, rest) =
    let tail = weighed-AllWeigh_other c d n m t h rest in
    elim (Bool-cases (is_value row.staking_contract c)) [
      | inl e ↦ (inl (rw e (is_value_other row.staking_contract c d h e)), tail)
      | inr e ↦ (rw e a, tail)
    ]

-- What a stake or an unstake leaves.
abbrev pub restaked : String → Table (String × String) Number → Number → DaoDb → DaoDb
restaked c stakers n db = record db {
  cw20_stakers = stakers;
  voting_modules = weighed c n db.voting_modules;
}

pub restaked-IsSettled :
    (c d : String) (stakers : Table (String × String) Number) (n : Number) (db : DaoDb)
    → n ≡ sum_staked c stakers
    → (c ≢ d → sum_staked d stakers ≡ sum_staked d db.cw20_stakers)
    → IsSettled d db
    → IsSettled c (restaked c stakers n db) × IsSettled d (restaked c stakers n db)
restaked-IsSettled c d stakers n db e other settled = (
  own,
  elim (Bool-cases (c == d)) [
    | inl h ↦ subst (λ x. IsSettled x (restaked c stakers n db)) (eq_of_beq c d h) own
    | inr h ↦ others (ne_of_beq c d h)
  ],
)
  where
    own : IsSettled c (restaked c stakers n db)
    own =
        subst (λ m. AllWeigh c m (weighed c n db.voting_modules)) e
          (weighed-AllWeigh c n db.voting_modules)

    others : c ≢ d → IsSettled d (restaked c stakers n db)
    others ne =
        subst (λ m. AllWeigh d m (weighed c n db.voting_modules)) (sym (other ne))
          (weighed-AllWeigh_other c d n _ db.voting_modules ne settled)

amount_of : Number → ℤ
amount_of nan = pos 0
amount_of (integer z) = z

-- A sum that an amount completes.
int_of_sum :
    (x : Number) (o t : ℤ) → add_numeric x (integer o) ≡ integer t → x ≡ integer (t +ℤ neg o)
unfolding amount_of
int_of_sum nan o t h = cc h
int_of_sum (integer x) o t h = ap integer (back x o ∙ ap (λ z. z +ℤ neg o) (ap amount_of h))
  where
    back : (x o : ℤ) → x ≡ x +ℤ o +ℤ neg o
    back x o = omega int_laws

-- The sum where a staker's amount changes by `z`, and where it ends at nothing.
pub sum_staked-upsert_by :
    (c f : String) (s o z : ℤ) (t : Table (String × String) Number)
    → sum_staked c t ≡ integer s
    → or_zero (lookup (c, f) t) ≡ integer o
    → sum_staked c (upsert (c, f) (integer (o +ℤ z)) (λ old. integer (o +ℤ z)) t) ≡ integer (s +ℤ z)
sum_staked-upsert_by c f s o z t hs ho =
    int_of_sum _ o (s +ℤ (o +ℤ z)) (
      ap (add_numeric _) (sym ho)
      ∙ sum_staked-upsert c f (integer (o +ℤ z)) t
      ∙ ap (λ x. add_numeric x (integer (o +ℤ z))) hs)
    ∙ ap integer (shifted s o z)
  where
    shifted : (s o z : ℤ) → s +ℤ (o +ℤ z) +ℤ neg o ≡ s +ℤ z
    shifted s o z = omega int_laws

no_parts : (a : ℤ) → is_zero a ≡ true → pos_part a + neg_part a ≡ 0
no_parts a h = ground arith

pub sum_staked-delete_by :
    (c f : String) (s o z : ℤ) (t : Table (String × String) Number)
    → sum_staked c t ≡ integer s
    → or_zero (lookup (c, f) t) ≡ integer o
    → is_zero (o +ℤ z) ≡ true
    → sum_staked c (delete (c, f) t) ≡ integer (s +ℤ z)
sum_staked-delete_by c f s o z t hs ho hz =
    int_of_sum _ o s (ap (add_numeric _) (sym ho) ∙ sum_staked-delete c f t ∙ hs)
    ∙ ap integer (balanced s o z hz)
  where
    balanced : (s o z : ℤ) → is_zero (o +ℤ z) ≡ true → s +ℤ neg o ≡ s +ℤ z
    balanced s o z hz = let none_left = no_parts (o +ℤ z) hz in omega int_laws
