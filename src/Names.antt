-- ===== src/Names.antt =====
-- postgres/names.ts and the names cases of sync_handlers/event_data_sync.ts: namespaces, name
-- records, and the two audit logs. The events come with their documents parsed.
pub mod Records
use ixo_blocksync.Base.{
  ℕ, Bool, true, false, String, Option, none, some, List, [], ◌∷◌, ◌++◌, ◌==◌, string_eq, pair_eq,
  if◌then◌else◌,
}
use ixo_blocksync.Base.Table.{Table, lookup, upsert, update}
use ixo_blocksync.Pg.{Action, query, statement, ◌>>=◌, ◌>>◌}

-- a row of "Namespace" beside its name
pub record Namespace : Type 0 where
  pub description : String
  pub registrar_accounts : List String
  pub allow_self_register : Bool
  pub allow_registrar_override : Bool
  pub min_length : ℕ
  pub max_length : ℕ
  pub regex : String
  pub allow_expiry : Bool
  pub authority : Option String
  pub created_at_height : Option ℕ
  pub created_at : Option ℕ
  pub updated_at_height : Option ℕ
  pub updated_at : Option ℕ

-- a row of "NameRecord" beside its key (namespace, normalizedName)
pub record NameRecord : Type 0 where
  pub display_name : String
  pub owner_did : String
  pub verified : Bool
  pub valid_until : ℕ
  pub status : ℕ
  pub verified_by : Option String
  pub evidence_hash : Option String
  pub source : Option String
  pub created_at_unix : Option ℕ
  pub updated_at_unix : Option ℕ
  pub updated_at_height : Option ℕ

pub record NameTransfer : Type 0 where
  pub namespace : String
  pub normalized_name : String
  pub from_owner_did : String
  pub to_owner_did : String
  pub transferred_by : String
  pub height : ℕ
  pub timestamp : ℕ

pub record NameStatusChange : Type 0 where
  pub namespace : String
  pub normalized_name : String
  pub old_status : ℕ
  pub new_status : ℕ
  pub changed_by : String
  pub reason : Option String
  pub height : ℕ
  pub timestamp : ℕ

pub record NamesDb : Type 0 where
  pub namespaces : Table String Namespace
  pub records : Table (String × String) NameRecord
  pub transfers : List NameTransfer
  pub status_changes : List NameStatusChange

-- DO UPDATE of upsertNamespaceSql: all columns but those of the creation
abbrev pub overwrite_namespace : Namespace → Namespace → Namespace
overwrite_namespace new old = record new {
  created_at_height = old.created_at_height;
  created_at = old.created_at;
}

pub upsert_namespace : String → Namespace → Action NamesDb
upsert_namespace name p =
    query (λ s. (tt, record s { namespaces = upsert name p (overwrite_namespace p) s.namespaces }))

-- DO UPDATE of upsertNameRecordSql
abbrev pub overwrite_name_record : NameRecord → NameRecord → NameRecord
overwrite_name_record new old = record new { created_at_unix = old.created_at_unix }

-- refused by the foreign key "namespace" → "Namespace"
pub upsert_name_record : String → String → NameRecord → Action NamesDb
upsert_name_record namespace name p = statement (λ s. elim (lookup namespace s.namespaces) [
  | none ↦ none
  | some _ ↦
      some
        (tt, record s { records = upsert (namespace, name) p (overwrite_name_record p) s.records })
])

pub insert_name_transfer : NameTransfer → Action NamesDb
insert_name_transfer t = query (λ s. (tt, record s { transfers = s.transfers ++ t ∷ [] }))

pub insert_name_status_change : NameStatusChange → Action NamesDb
insert_name_status_change c =
    query (λ s. (tt, record s { status_changes = s.status_changes ++ c ∷ [] }))

abbrev pub set_owner : String → ℕ → NameRecord → NameRecord
set_owner did height r = record r { owner_did = did; updated_at_height = some height }

abbrev pub set_status : ℕ → ℕ → NameRecord → NameRecord
set_status status height r = record r { status = status; updated_at_height = some height }

pub apply_name_transfer : String → String → String → ℕ → Action NamesDb
apply_name_transfer namespace name to_owner_did height = query (λ s.
    (tt, record s { records = update (namespace, name) (set_owner to_owner_did height) s.records }))

pub apply_name_status : String → String → ℕ → ℕ → Action NamesDb
apply_name_status namespace name status height = query (λ s.
    (tt, record s { records = update (namespace, name) (set_status status height) s.records }))

-- A status as JSON has it.
pub data StatusValue : Type 0 where
  number : ℕ → StatusValue
  text : String → StatusValue
  other : StatusValue

-- `nameStatusFrom`; `parse_number` is JavaScript's `Number` on a text, `none` for NaN
unfoldable pub name_status_from : (String → Option ℕ) → StatusValue → ℕ
name_status_from parse_number (number n) = n
name_status_from parse_number (text v) =
    if v == "NAME_STATUS_UNSPECIFIED"
    then 0
    else if v == "NAME_STATUS_ACTIVE"
    then 1
    else if v == "NAME_STATUS_SUSPENDED"
    then 2
    else if v == "NAME_STATUS_REVOKED"
    then 3
    else if v == "NAME_STATUS_TOMBSTONED"
    then 4
    else elim (parse_number v) [ none ↦ 0 | some n ↦ n ]
name_status_from parse_number other = 0

-- `safeGet(…) || undefined`, `record.… || undefined`
abbrev pub or_undefined : String → Option String
or_undefined s = if s == "" then none else some s

-- The events of the names module with what their attributes hold.
pub data NamesEvent : Type 0 where
  namespace_created : String → Namespace → NamesEvent
  namespace_updated : String → Namespace → NamesEvent
  name_registered : String → String → NameRecord → StatusValue → NamesEvent
  name_updated : String → String → NameRecord → StatusValue → NamesEvent
  name_transferred : (namespace name from_did to_did by : String) → NamesEvent
  name_status_changed :
      (namespace name : String) (old_status new_status : StatusValue) (by reason : String)
      → NamesEvent

module _ (parse_number : String → Option ℕ) (height time : ℕ) where
  -- the case of NamespaceCreatedEvent and NamespaceUpdatedEvent; the document has no creation
  sync_namespace : Bool → String → Namespace → Action NamesDb
  sync_namespace created name ns = upsert_namespace name (record ns {
    created_at_height = if created then some height else none;
    created_at = if created then some time else none;
    updated_at_height = some height;
    updated_at = some time;
  })

  -- the case of NameRegisteredEvent and NameUpdatedEvent
  sync_name_record : String → String → NameRecord → StatusValue → Action NamesDb
  sync_name_record namespace name doc status = upsert_name_record namespace name (record doc {
    status = name_status_from parse_number status;
    updated_at_height = some height;
  })

  pub sync_names_event : NamesEvent → Action NamesDb
  sync_names_event (namespace_created name ns) = sync_namespace true name ns
  sync_names_event (namespace_updated name ns) = sync_namespace false name ns
  sync_names_event (name_registered namespace name doc status) =
      sync_name_record namespace name doc status
  sync_names_event (name_updated namespace name doc status) =
      sync_name_record namespace name doc status
  sync_names_event (name_transferred namespace name from_did to_did by) = do
    apply_name_transfer namespace name to_did height
    insert_name_transfer (record {
      namespace = namespace;
      normalized_name = name;
      from_owner_did = from_did;
      to_owner_did = to_did;
      transferred_by = by;
      height = height;
      timestamp = time;
    })
  sync_names_event (name_status_changed namespace name old_status new_status by reason) = do
    apply_name_status namespace name (name_status_from parse_number new_status) height
    insert_name_status_change (record {
      namespace = namespace;
      normalized_name = name;
      old_status = name_status_from parse_number old_status;
      new_status = name_status_from parse_number new_status;
      changed_by = by;
      reason = or_undefined reason;
      height = height;
      timestamp = time;
    })
