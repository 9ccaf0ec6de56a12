-- ===== src/Dao/Sums.antt =====
-- The sums of staked amounts (postgres/dao.ts) when a staker's row is written or removed.
use ixo_blocksync.Base.{
  ◌≡◌, refl, sym, ◌∙◌, ap, ◌≢◌, String, Option, none, some, [], ◌∷◌, arith, string_eq, pair_eq,
}
use ixo_blocksync.Base.Int.{ℤ, pos, ◌+ℤ◌, int_laws}
use ixo_blocksync.Base.Table.{Table, lookup, upsert, delete}
use ixo_blocksync.Numbers.{Number, nan, integer, add_numeric}
use ixo_blocksync.Dao.StakerSql.{sum_staked}

comm_int : (a b : ℤ) → a +ℤ b ≡ b +ℤ a
comm_int a b = omega int_laws

assoc_int : (a b c : ℤ) → a +ℤ b +ℤ c ≡ a +ℤ (b +ℤ c)
assoc_int a b c = omega int_laws

zero_int : (a : ℤ) → pos 0 +ℤ a ≡ a
zero_int a = omega int_laws

pub add_numeric_comm : (a b : Number) → add_numeric a b ≡ add_numeric b a
add_numeric_comm nan nan = refl
add_numeric_comm nan (integer b) = refl
add_numeric_comm (integer a) nan = refl
add_numeric_comm (integer a) (integer b) = ap integer (comm_int a b)

pub add_numeric_assoc :
    (a b c : Number) → add_numeric (add_numeric a b) c ≡ add_numeric a (add_numeric b c)
add_numeric_assoc nan b c = refl
add_numeric_assoc (integer a) nan c = refl
add_numeric_assoc (integer a) (integer b) nan = refl
add_numeric_assoc (integer a) (integer b) (integer c) = ap integer (assoc_int a b c)

add_numeric_zero : (a : Number) → add_numeric (integer (pos 0)) a ≡ a
add_numeric_zero nan = refl
add_numeric_zero (integer a) = ap integer (zero_int a)

-- A missing row stands for nothing staked.
abbrev pub or_zero : Option Number → Number
or_zero none = integer (pos 0)
or_zero (some a) = a

swap_last : (a b c : Number) → add_numeric (add_numeric a b) c ≡ add_numeric (add_numeric c b) a
swap_last a b c =
    add_numeric_comm (add_numeric a b) c
    ∙ ap (add_numeric c) (add_numeric_comm a b)
    ∙ sym (add_numeric_assoc c b a)

under_head :
    (w x y u v : Number)
    → add_numeric x u ≡ add_numeric y v
    → add_numeric (add_numeric w x) u ≡ add_numeric (add_numeric w y) v
under_head w x y u v h =
    add_numeric_assoc w x u ∙ ap (add_numeric w) h ∙ sym (add_numeric_assoc w y v)

abbrev Stakers : Type 0
Stakers = Table (String × String) Number

-- The new sum and the old amount make up the old sum and the new amount.
pub sum_staked-upsert :
    (c f : String) (n : Number) (t : Stakers)
    → add_numeric (sum_staked c (upsert (c, f) n (λ old. n) t)) (or_zero (lookup (c, f) t))
      ≡ add_numeric (sum_staked c t) n
unfolding sum_staked upsert lookup
sum_staked-upsert c f n [] = ground (
  arith,
  string_eq.beq_iff c c,
  add_numeric_zero n,
  add_numeric_comm n (integer (pos 0)),
  add_numeric_comm (add_numeric n (integer (pos 0))) (integer (pos 0)),
)
sum_staked-upsert c f n ((k, w) ∷ t) = ground (
  arith,
  string_eq.beq_iff k.0 c,
  string_eq.beq_iff k.1 f,
  swap_last n (sum_staked c t) w,
  sum_staked-upsert c f n t,
  under_head w (sum_staked c (upsert (c, f) n (λ old. n) t)) (sum_staked c t)
      (or_zero (lookup (c, f) t)) n,
)

-- The rest of the sum and the amount that goes make up the old sum.
pub sum_staked-delete :
    (c f : String) (t : Stakers)
    → add_numeric (sum_staked c (delete (c, f) t)) (or_zero (lookup (c, f) t)) ≡ sum_staked c t
unfolding sum_staked delete lookup
sum_staked-delete c f [] = add_numeric_zero (integer (pos 0))
sum_staked-delete c f ((k, w) ∷ t) = ground (
  arith,
  string_eq.beq_iff k.0 c,
  string_eq.beq_iff k.1 f,
  add_numeric_comm (sum_staked c t) w,
  sum_staked-delete c f t,
  add_numeric_assoc w (sum_staked c (delete (c, f) t)) (or_zero (lookup (c, f) t)),
)

-- The other contracts' sums stay.
pub sum_staked-upsert_other :
    (c d f : String) (n : Number) (t : Stakers)
    → c ≢ d
    → sum_staked d (upsert (c, f) n (λ old. n) t) ≡ sum_staked d t
unfolding sum_staked upsert
sum_staked-upsert_other c d f n [] h = ground (arith, string_eq.beq_iff c d)
sum_staked-upsert_other c d f n ((k, w) ∷ t) h = ground (
  arith,
  string_eq.beq_iff k.0 c,
  string_eq.beq_iff k.0 d,
  string_eq.beq_iff k.1 f,
  sum_staked-upsert_other c d f n t h,
)

pub sum_staked-delete_other :
    (c d f : String) (t : Stakers) → c ≢ d → sum_staked d (delete (c, f) t) ≡ sum_staked d t
unfolding sum_staked delete
sum_staked-delete_other c d f [] h = refl
sum_staked-delete_other c d f ((k, w) ∷ t) h = ground (
  arith,
  string_eq.beq_iff k.0 c,
  string_eq.beq_iff k.0 d,
  string_eq.beq_iff k.1 f,
  sum_staked-delete_other c d f t h,
)
