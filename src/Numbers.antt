-- ===== src/Numbers.antt =====
-- JavaScript's Number as the DAO handlers use it: the amounts they read from an attribute or from a
-- NUMERIC column by `parseInt`, add, and write back by `toString`. A Number is named by the integer
-- that `toString` prints. The operations come from the language, as an `Arithmetic`.
use ixo_blocksync.Base.{◌≡◌, ℕ, ◌+◌, ◌<◌, Bool, true, String, Option, none, some}
use ixo_blocksync.Base.Int.{ℤ, pos, pos_part, neg_part, ◌+ℤ◌, neg, is_zero}

pub data Number : Type 0 where
  nan : Number
  integer : ℤ → Number

pub record Arithmetic : Type 0 where
  pub parse_int : String → Number
  -- `parseInt` of the digits of an integer: the Number nearest to it
  pub nearest : ℤ → ℤ
  pub plus : ℤ → ℤ → ℤ
  pub minus : ℤ → ℤ → ℤ
  -- `Math.floor(Number(text) / n)`
  pub floor_div : String → ℕ → ℕ

-- Number.MAX_SAFE_INTEGER is 2 ^ 53 - 1.
abbrev pub IsSafe : ℤ → Type 0
IsSafe z = pos_part z + neg_part z < 9007199254740992

-- What the language documents of safe integers.
pub record IsExact (js : Arithmetic) : Type 0 where
  pub nearest_safe : (z : ℤ) → IsSafe z → js.nearest z ≡ z
  pub plus_safe : (a b : ℤ) → IsSafe a → IsSafe b → IsSafe (a +ℤ b) → js.plus a b ≡ a +ℤ b
  pub minus_safe : (a b : ℤ) → IsSafe a → IsSafe b → IsSafe (a +ℤ neg b) → js.minus a b ≡ a +ℤ neg b

-- `!n`
abbrev pub is_falsy : Number → Bool
is_falsy nan = true
is_falsy (integer z) = is_zero z

-- `+` of PostgreSQL's NUMERIC, which has a NaN
abbrev pub add_numeric : Number → Number → Number
add_numeric nan b = nan
add_numeric (integer a) nan = nan
add_numeric (integer a) (integer b) = integer (a +ℤ b)

module _ (js : Arithmetic) where
  -- `parseInt(column || "0")`
  abbrev pub parse_numeric : Option Number → Number
  parse_numeric none = integer (js.nearest (pos 0))
  parse_numeric (some nan) = nan
  parse_numeric (some (integer z)) = integer (js.nearest z)

  -- `parseInt(attribute)`, NaN for null
  abbrev pub parse_attr : Option String → Number
  parse_attr none = nan
  parse_attr (some text) = js.parse_int text

  abbrev pub js_plus : Number → Number → Number
  js_plus nan b = nan
  js_plus (integer a) nan = nan
  js_plus (integer a) (integer b) = integer (js.plus a b)

  abbrev pub js_minus : Number → Number → Number
  js_minus nan b = nan
  js_minus (integer a) nan = nan
  js_minus (integer a) (integer b) = integer (js.minus a b)
