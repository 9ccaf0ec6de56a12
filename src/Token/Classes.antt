-- ===== src/Token/Classes.antt =====
-- postgres/token.ts: the classes and the tokens, with the token cases of
-- sync_handlers/event_data_sync.ts. Rows of "TokenData", "TokenRetired" and "TokenCancelled" stand in the
-- order of their insertion, without the serial numbers that nothing reads.
use ixo_blocksync.Base.{
  Bool, true, false, String, Option, none, some, List, [], ◌∷◌, ◌++◌, ◌==◌, ◌&&◌, ◌||◌, not, map,
  keep_if, string_eq, if◌then◌else◌,
}
use ixo_blocksync.Base.Int.{ℤ, is_bigint}
use ixo_blocksync.Base.Table.{Table, lookup, upsert, update}
use ixo_blocksync.Pg.{Exec, Action, pure, statement, query, ◌>>=◌, ◌>>◌}

pub record TokenClass : Type 0 where
  pub minter : String
  pub class : Option String
  pub name : String
  pub description : String
  pub image : String
  pub type : String
  pub cap : ℤ
  pub supply : ℤ
  pub paused : Bool
  pub stopped : Bool

pub record TokenRetired : Type 0 where
  pub id : String
  pub reason : String
  pub jurisdiction : String
  pub amount : ℤ
  pub owner : String

pub record TokenCancelled : Type 0 where
  pub id : String
  pub reason : String
  pub amount : ℤ
  pub owner : String

pub record TokenData : Type 0 where
  pub uri : String
  pub encrypted : Bool
  pub proof : String
  pub type : String
  pub id : String

-- a row of "Token" beside its id
pub record Token : Type 0 where
  pub index : String
  pub name : String
  pub collection : Option String

-- "Entity" by its ids; a row of the last three tables is beside its token, or the name of its class.
pub record ClassDb : Type 0 where
  pub entities : Table String (Unit {0})
  pub classes : Table String TokenClass
  pub tokens : Table String Token
  pub token_data : List (String × TokenData)
  pub retired : List (String × TokenRetired)
  pub cancelled : List (String × TokenCancelled)

abbrev pub is_row {ℓ} : {V : Type ℓ} → Option V → Bool
is_row none = false
is_row (some v) = true

-- a foreign key to "Entity", or NULL
abbrev pub is_entity : Table String (Unit {0}) → Option String → Bool
is_entity entities none = true
is_entity entities (some id) = is_row (lookup id entities)

-- the foreign keys to the "name" of a class
unfoldable pub has_class : String → Table String TokenClass → Bool
has_class name [] = false
has_class name ((i, row) ∷ t) = row.name == name || has_class name t

-- the unique "name": no class of another contract has it
unfoldable pub is_name_free : String → String → Table String TokenClass → Bool
is_name_free contract name [] = true
is_name_free contract name ((i, row) ∷ t) =
    (i == contract || not (row.name == name)) && is_name_free contract name t

-- `entityIdOrNull`
unfoldable pub entity_id_or_null : Option String → Exec ClassDb (Option String)
unfolding pure
entity_id_or_null none = pure none
entity_id_or_null (some id) =
    if id == ""
    then pure none
    else query (λ s. (if is_row (lookup id s.entities) then some id else none, s))

-- the BIGINT columns of a class
abbrev pub is_in_range : TokenClass → Bool
is_in_range p = is_bigint p.cap && is_bigint p.supply

-- every one of the amounts is taken by a BIGINT column
unfoldable pub are_bigints : List ℤ → Bool
are_bigints [] = true
are_bigints (n ∷ ns) = is_bigint n && are_bigints ns

-- createTokenClassSql
unfoldable pub insert_token_class : String → TokenClass → Action ClassDb
unfolding is_name_free
insert_token_class contract row = statement (λ s.
    if not (is_row (lookup contract s.classes))
      && is_name_free contract row.name s.classes
      && is_entity s.entities row.class
      && is_in_range row
    then some (tt, record s { classes = upsert contract row (λ old. old) s.classes })
    else none)

-- `createTokenClass`
unfoldable pub create_token_class : String → TokenClass → Action ClassDb
unfolding ◌>>=◌ entity_id_or_null insert_token_class
create_token_class contract p =
    entity_id_or_null p.class >>= λ class. insert_token_class contract (record p { class = class })

-- ON UPDATE CASCADE of the three foreign keys to "TokenClass"."name"
abbrev pub cascaded {ℓ} : {A : Type ℓ} → String → String → List (String × A) → List (String × A)
cascaded old new rows = map (λ row. (if row.0 == old then new else row.0, row.1)) rows

abbrev pub renamed : String → String → ClassDb → ClassDb
renamed old new s = record s {
  tokens =
      map (λ t. (t.0, record t.1 { name = if t.1.name == old then new else t.1.name })) s.tokens;
  retired = cascaded old new s.retired;
  cancelled = cascaded old new s.cancelled;
}

abbrev pub overwrite_class : String → TokenClass → ClassDb → Option TokenClass → ClassDb
overwrite_class contract row s none = s
overwrite_class contract row s (some old) =
    renamed old.name row.name (record s { classes = update contract (λ old. row) s.classes })

-- updateTokenClassSql, which sets all columns of a row that is there
unfoldable pub set_token_class : String → TokenClass → Action ClassDb
unfolding is_name_free
set_token_class contract row = statement (λ s.
    if (not (is_row (lookup contract s.classes))
        || is_name_free contract row.name s.classes && is_entity s.entities row.class)
      && is_in_range row
    then some (tt, overwrite_class contract row s (lookup contract s.classes))
    else none)

-- every one of the tokens has a row
unfoldable pub are_tokens : List String → Table String Token → Bool
are_tokens [] t = true
are_tokens (id ∷ ids) t = is_row (lookup id t) && are_tokens ids t

abbrev pub is_other {ℓ} : {A : Type ℓ} → String → String × A → Bool
is_other name row = not (row.0 == name)

-- deleteTokenRetiredSql and createTokenRetiredSql, where there are any
unfoldable pub replace_retired : String → List TokenRetired → Action ClassDb
unfolding pure ◌>>=◌ has_class are_tokens
replace_retired name [] = pure tt
replace_retired name (r ∷ rs) = do
  query (λ s. (tt, record s { retired = keep_if (is_other name) s.retired }))
  statement (λ s.
      if has_class name s.classes
        && are_tokens (map (λ x. x.id) (r ∷ rs)) s.tokens
        && are_bigints (map (λ x. x.amount) (r ∷ rs))
      then some (tt, record s { retired = s.retired ++ map (λ x. (name, x)) (r ∷ rs) })
      else none)

-- deleteTokenCancelledSql and createTokenCancelledSql, where there are any
unfoldable pub replace_cancelled : String → List TokenCancelled → Action ClassDb
unfolding pure ◌>>=◌ has_class
replace_cancelled name [] = pure tt
replace_cancelled name (c ∷ cs) = do
  query (λ s. (tt, record s { cancelled = keep_if (is_other name) s.cancelled }))
  statement (λ s.
      if has_class name s.classes && are_bigints (map (λ x. x.amount) (c ∷ cs))
      then some (tt, record s { cancelled = s.cancelled ++ map (λ x. (name, x)) (c ∷ cs) })
      else none)

-- `updateTokenClass`
unfoldable pub update_token_class :
    String → TokenClass → List TokenRetired → List TokenCancelled → Action ClassDb
unfolding ◌>>=◌ entity_id_or_null set_token_class replace_retired replace_cancelled
update_token_class contract p retired cancelled = do
  class ← entity_id_or_null p.class
  set_token_class contract (record p { class = class })
  replace_retired p.name retired
  replace_cancelled p.name cancelled

-- createTokenSql
unfoldable pub insert_token : String → Token → Action ClassDb
unfolding has_class
insert_token id row = statement (λ s.
    if not (is_row (lookup id s.tokens))
      && has_class row.name s.classes
      && is_entity s.entities row.collection
    then some (tt, record s { tokens = upsert id row (λ old. old) s.tokens })
    else none)

-- createTokenDataSql, where there are any
unfoldable pub insert_token_data : String → List TokenData → Action ClassDb
unfolding pure
insert_token_data id [] = pure tt
insert_token_data id (d ∷ ds) = statement (λ s.
    if is_row (lookup id s.tokens)
    then some (tt, record s { token_data = s.token_data ++ map (λ x. (id, x)) (d ∷ ds) })
    else none)

-- `createToken`
unfoldable pub create_token : String → Token → List TokenData → Action ClassDb
unfolding ◌>>=◌ entity_id_or_null insert_token insert_token_data
create_token id p token_data = do
  collection ← entity_id_or_null p.collection
  insert_token id (record p { collection = collection })
  insert_token_data id token_data

-- the token cases of `syncEventData`
pub data TokenEvent : Type 0 where
  class_created : String → TokenClass → TokenEvent
  class_updated : String → TokenClass → List TokenRetired → List TokenCancelled → TokenEvent
  token_minted : String → Token → List TokenData → TokenEvent

unfoldable pub sync_token_table_event : TokenEvent → Action ClassDb
unfolding create_token_class update_token_class create_token
sync_token_table_event (class_created contract p) = create_token_class contract p
sync_token_table_event (class_updated contract p retired cancelled) =
    update_token_class contract p retired cancelled
sync_token_table_event (token_minted id p token_data) = create_token id p token_data
