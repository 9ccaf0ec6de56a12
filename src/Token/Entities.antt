-- ===== src/Token/Entities.antt =====
-- The references of the classes and the tokens to indexed entities (postgres/token.ts).
use ixo_blocksync.Base.{
  ◌≡◌, refl, ◌∙◌, true, String, Option, none, some, List, [], ◌∷◌, ◌++◌, ◌==◌, map, string_eq,
  arith, Bool-cases, Option-cases, keep_if, inl, inr, if◌then◌else◌,
}
use ixo_blocksync.Base.Table.{Table, lookup, upsert, update, lookup-upsert_self, lookup-update_self}
use ixo_blocksync.Pg.{ok, running, pure, statement, query, ◌>>=◌}
use ixo_blocksync.Token.Classes.{
  TokenClass, TokenRetired, TokenCancelled, TokenData, Token, ClassDb, is_row, is_in_range,
  are_bigints, is_entity, has_class, is_name_free, entity_id_or_null, insert_token_class,
  create_token_class, renamed, is_other, set_token_class, are_tokens, replace_retired,
  replace_cancelled, update_token_class, insert_token, insert_token_data, create_token, TokenEvent,
  class_created, class_updated, token_minted, sync_token_table_event,
}

-- The reference that is stored for an id: the id of an entity that has a row, or NULL.
abbrev pub indexed : Table String (Unit {0}) → Option String → Option String
indexed entities none = none
indexed entities (some id) =
    if id == "" then none else if is_row (lookup id entities) then some id else none

abbrev pub with_class : ClassDb → TokenClass → TokenClass
with_class db p = record p { class = indexed db.entities p.class }

abbrev pub with_collection : ClassDb → Token → Token
with_collection db p = record p { collection = indexed db.entities p.collection }

-- The event is one that its columns and keys take: its numbers are in the range of BIGINT, and its
-- contract, name and tokens are new or there, as it needs them. Nothing is asked of its class or
-- collection.
abbrev pub IsTaken : ClassDb → TokenEvent → Type 0
IsTaken db (class_created contract p) =
    (lookup contract db.classes ≡ none)
    × (is_name_free contract p.name db.classes ≡ true)
    × (is_in_range p ≡ true)
IsTaken db (class_updated contract p retired cancelled) =
    (is_row (lookup contract db.classes) ≡ true)
    × (is_name_free contract p.name db.classes ≡ true)
    × (is_in_range p ≡ true)
    × (are_tokens (map (λ r. r.id) retired) db.tokens ≡ true)
    × (are_bigints (map (λ r. r.amount) retired) ≡ true)
    × (are_bigints (map (λ c. c.amount) cancelled) ≡ true)
IsTaken db (token_minted id p token_data) =
    (lookup id db.tokens ≡ none) × (has_class p.name db.classes ≡ true)

-- The row of the event is in the database, with its reference to the indexed entity.
abbrev pub IsStored : ClassDb → TokenEvent → ClassDb → Type 0
IsStored db (class_created contract p) db' = lookup contract db'.classes ≡ some (with_class db p)
IsStored db (class_updated contract p retired cancelled) db' =
    lookup contract db'.classes ≡ some (with_class db p)
IsStored db (token_minted id p token_data) db' = lookup id db'.tokens ≡ some (with_collection db p)

entity_id_or_null_lem :
    (id : Option String) (db : ClassDb)
    → entity_id_or_null id (running db) ≡ (ok (indexed db.entities id), running db)
unfolding entity_id_or_null query pure
entity_id_or_null_lem none db = refl
entity_id_or_null_lem (some id) db = elim (Bool-cases (id == "")) [
  | inl e ↦ rw e refl
  | inr e ↦ rw e refl
]

indexed-is_entity :
    (entities : Table String (Unit {0})) (id : Option String)
    → is_entity entities (indexed entities id) ≡ true
indexed-is_entity entities none = refl
indexed-is_entity entities (some id) = ground arith

has_class-update :
    (contract : String) (row : TokenClass) (t : Table String TokenClass)
    → is_row (lookup contract t) ≡ true
    → has_class row.name (update contract (λ old. row) t) ≡ true
unfolding has_class lookup update
has_class-update contract row [] h = cc h
has_class-update contract row ((i, old) ∷ t) h =
    ground (arith, string_eq.beq_iff row.name row.name, has_class-update contract row t)

lookup-map :
    (f : Token → Token) (id : String) (t : Table String Token)
    → is_row (lookup id (map (λ (x : String × Token). (x.0, f x.1)) t)) ≡ is_row (lookup id t)
unfolding lookup
lookup-map f id [] = refl
lookup-map f id ((i, row) ∷ t) = ground (arith, lookup-map f id t)

are_tokens-map :
    (f : Token → Token) (ids : List String) (t : Table String Token)
    → are_tokens ids (map (λ (x : String × Token). (x.0, f x.1)) t) ≡ are_tokens ids t
unfolding are_tokens
are_tokens-map f [] t = refl
are_tokens-map f (id ∷ ids) t = rw (lookup-map f id t, are_tokens-map f ids t) refl

cancelled_lem :
    (name : String) (cancelled : List TokenCancelled) (db : ClassDb)
    → has_class name db.classes ≡ true
    → are_bigints (map (λ c. c.amount) cancelled) ≡ true
    → (db' : ClassDb) × (replace_cancelled name cancelled (running db) ≡ (ok tt, running db'))
      × (db'.classes ≡ db.classes)
unfolding replace_cancelled query statement pure ◌>>=◌
cancelled_lem name [] db there sizes = (db, refl, refl)
cancelled_lem name (c ∷ cs) db there sizes = (
  record db { cancelled = keep_if (is_other name) db.cancelled ++ map (λ x. (name, x)) (c ∷ cs) },
  rw (there, sizes) refl,
  refl,
)

retired_lem :
    (name : String) (retired : List TokenRetired) (db : ClassDb)
    → has_class name db.classes ≡ true
    → are_tokens (map (λ r. r.id) retired) db.tokens ≡ true
    → are_bigints (map (λ r. r.amount) retired) ≡ true
    → (db' : ClassDb) × (replace_retired name retired (running db) ≡ (ok tt, running db'))
      × (db'.classes ≡ db.classes)
unfolding replace_retired query statement pure ◌>>=◌
retired_lem name [] db there tokens sizes = (db, refl, refl)
retired_lem name (r ∷ rs) db there tokens sizes = (
  record db { retired = keep_if (is_other name) db.retired ++ map (λ x. (name, x)) (r ∷ rs) },
  rw (there, tokens, sizes) refl,
  refl,
)

abbrev updated : String → TokenClass → TokenClass → ClassDb → ClassDb
updated contract old row db =
    renamed old.name row.name (record db { classes = update contract (λ old. row) db.classes })

set_token_class_lem :
    (contract : String) (old p : TokenClass) (db : ClassDb)
    → lookup contract db.classes ≡ some old
    → is_name_free contract p.name db.classes ≡ true
    → is_in_range p ≡ true
    → set_token_class contract (with_class db p) (running db)
      ≡ (ok tt, running (updated contract old (with_class db p) db))
unfolding set_token_class statement
set_token_class_lem contract old p db there free range =
    rw (there, free, indexed-is_entity db.entities p.class, range) refl

update_lem :
    (contract : String) (old p : TokenClass) (retired : List TokenRetired)
    (cancelled : List TokenCancelled) (db : ClassDb)
    → lookup contract db.classes ≡ some old
    → is_name_free contract p.name db.classes ≡ true
    → is_in_range p ≡ true
    → are_tokens (map (λ r. r.id) retired) db.tokens ≡ true
    → are_bigints (map (λ r. r.amount) retired) ≡ true
    → are_bigints (map (λ c. c.amount) cancelled) ≡ true
    → (db' : ClassDb) × (update_token_class contract p retired cancelled (running db)
        ≡ (ok tt, running db'))
      × (lookup contract db'.classes ≡ some (with_class db p))
unfolding update_token_class ◌>>=◌
update_lem contract old p retired cancelled db there free range tokens sizes others =
    let row = with_class db p in
    let db₁ : ClassDb = updated contract old row db in
    let named : has_class p.name db₁.classes ≡ true =
      has_class-update contract row db.classes (rw there refl) in
    let (db₂, ran₂, same₂) =
      retired_lem p.name retired db₁ named
        (are_tokens-map
            (λ (t : Token). record t { name = if t.name == old.name then p.name else t.name })
            (map (λ r. r.id) retired) db.tokens
          ∙ tokens)
        sizes in
    let (db₃, ran₃, same₃) = cancelled_lem p.name cancelled db₂ (rw same₂ named) others in
    (
      db₃,
      rw
          (
            entity_id_or_null_lem p.class db,
            set_token_class_lem contract old p db there free range,
            ran₂,
            ran₃,
          )
          refl,
      rw (same₃, same₂) (lookup-update_self contract (λ old. row) db.classes old there),
    )

data_lem :
    (id : String) (token_data : List TokenData) (db : ClassDb)
    → is_row (lookup id db.tokens) ≡ true
    → (db' : ClassDb) × (insert_token_data id token_data (running db) ≡ (ok tt, running db'))
      × (db'.tokens ≡ db.tokens)
unfolding insert_token_data statement pure
data_lem id [] db there = (db, refl, refl)
data_lem id (d ∷ ds) db there =
    (record db { token_data = db.token_data ++ map (λ x. (id, x)) (d ∷ ds) }, rw there refl, refl)

insert_token_lem :
    (id : String) (p : Token) (db : ClassDb)
    → lookup id db.tokens ≡ none
    → has_class p.name db.classes ≡ true
    → insert_token id (with_collection db p) (running db) ≡ (
      ok tt,
      running (record db { tokens = upsert id (with_collection db p) (λ old. old) db.tokens }),
    )
unfolding insert_token statement
insert_token_lem id p db new there =
    rw (new, there, indexed-is_entity db.entities p.collection) refl

-- An event of a class or of a token whose numbers are in the range of BIGINT and whose contract,
-- name and tokens are new or there, as its keys need them, does not fail, whatever its class or
-- collection is: the row is stored, with a reference to the entity where one has that id, and
-- NULL otherwise.
pub sync_token_table_event-IsStored :
    (event : TokenEvent) (db : ClassDb)
    → IsTaken db event
    → (db' : ClassDb) × (sync_token_table_event event (running db) ≡ (ok tt, running db'))
      × IsStored db event db'
unfolding sync_token_table_event create_token_class create_token insert_token_class statement ◌>>=◌
sync_token_table_event-IsStored (class_created contract p) db (new, free, range) = (
  record db { classes = upsert contract (with_class db p) (λ old. old) db.classes },
  rw (entity_id_or_null_lem p.class db, new, free, indexed-is_entity db.entities p.class, range)
      refl,
  lookup-upsert_self contract (with_class db p) (λ old. old) db.classes ∙ rw new refl,
)
sync_token_table_event-IsStored (class_updated contract p retired cancelled) db
      (there, free, range, tokens, sizes, others) =
    elim (Option-cases (lookup contract db.classes)) [
      | inl e ↦ absurd (ground (arith, there, e))
      | inr (old, e) ↦
          update_lem contract old p retired cancelled db e free range tokens sizes others
    ]
sync_token_table_event-IsStored (token_minted id p token_data) db (new, there) =
    let row = with_collection db p in
    let db₁ : ClassDb = record db { tokens = upsert id row (λ old. old) db.tokens } in
    let stored : lookup id db₁.tokens ≡ some row =
      lookup-upsert_self id row (λ old. old) db.tokens ∙ rw new refl in
    let (db₂, ran₂, same₂) = data_lem id token_data db₁ (rw stored refl) in
    (
      db₂,
      rw (entity_id_or_null_lem p.collection db, insert_token_lem id p db new there, ran₂) refl,
      rw same₂ stored,
    )
