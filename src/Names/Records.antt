-- ===== src/Names/Records.antt =====
-- What the names events keep (postgres/names.ts, sync_handlers/event_data_sync.ts).
use ixo_blocksync.Base.{
  ◌≡◌, refl, ℕ, String, Option, none, some, arith, string_eq, pair_eq, pair_beq_iff,
}
use ixo_blocksync.Base.Table.{Table, change, lookup, upsert, update, lookup-upsert, lookup-update}
use ixo_blocksync.Pg.{running, query, statement, ◌>>=◌}
use ixo_blocksync.Names.{
  Namespace, NameRecord, NamesDb, upsert_namespace, upsert_name_record, insert_name_transfer,
  insert_name_status_change, apply_name_transfer, apply_name_status, overwrite_namespace,
  overwrite_name_record, StatusValue, NamesEvent, namespace_created, namespace_updated,
  name_registered, name_updated, name_transferred, name_status_changed, sync_namespace,
  sync_name_record, sync_names_event,
}

-- Where a record is there, its creation time is the one given.
abbrev SameCreation : Option NameRecord → Option NameRecord → Type 0
SameCreation none r = Unit
SameCreation (some old) none = ⊥
SameCreation (some old) (some new) = new.created_at_unix ≡ old.created_at_unix

abbrev SameFounding : Option Namespace → Option Namespace → Type 0
SameFounding none r = Unit
SameFounding (some old) none = ⊥
SameFounding (some old) (some new) =
    (new.created_at_height ≡ old.created_at_height) × (new.created_at ≡ old.created_at)

Founding-refl : (o : Option Namespace) → SameFounding o o
Founding-refl none = tt
Founding-refl (some ns) = (refl, refl)

Creation-refl : (o : Option NameRecord) → SameCreation o o
Creation-refl none = tt
Creation-refl (some r) = refl

-- No namespace and no name is lost, and none changes when it was created.
pub record Keeps (s s' : NamesDb) : Type 0 where
  pub namespaces : (n : String) → SameFounding (lookup n s.namespaces) (lookup n s'.namespaces)
  pub names : (k : String × String) → SameCreation (lookup k s.records) (lookup k s'.records)

Keeps-refl : (s : NamesDb) → Keeps s s
Keeps-refl s = record { namespaces = λ n. Founding-refl _; names = λ k. Creation-refl _ }

upsert-Founding :
    (name : String) (ns : Namespace) (t : Table String Namespace) (n : String)
    → SameFounding (lookup n t) (lookup n (upsert name ns (overwrite_namespace ns) t))
upsert-Founding name ns t n =
    rw lookup-upsert (ground (arith, string_eq.beq_iff name n, Founding-refl (lookup n t)))

upsert-Creation :
    (key : String × String) (r : NameRecord) (t : Table (String × String) NameRecord)
    (k : String × String)
    → SameCreation (lookup k t) (lookup k (upsert key r (overwrite_name_record r) t))
upsert-Creation key r t k =
    rw lookup-upsert (ground (arith, pair_beq_iff key k, Creation-refl (lookup k t)))

change-Creation :
    (f : NameRecord → NameRecord) (o : Option NameRecord)
    → ((r : NameRecord) → (f r).created_at_unix ≡ r.created_at_unix)
    → SameCreation o (change f o)
change-Creation f none same = tt
change-Creation f (some r) same = same r

update-Creation :
    (key : String × String) (f : NameRecord → NameRecord) (t : Table (String × String) NameRecord)
    (k : String × String)
    → ((r : NameRecord) → (f r).created_at_unix ≡ r.created_at_unix)
    → SameCreation (lookup k t) (lookup k (update key f t))
update-Creation key f t k same = rw lookup-update (
    ground
      (arith, pair_beq_iff key k, Creation-refl (lookup k t), change-Creation f (lookup k t) same))

-- An accepted or a refused registration of a name.
name_record-Keeps :
    (parse_number : String → Option ℕ) (height time : ℕ) (n m : String) (doc : NameRecord)
    (status : StatusValue) (s : NamesDb) (found : Option Namespace)
    → lookup n s.namespaces ≡ found
    → Keeps s (sync_name_record parse_number height time n m doc status (running s)).1.db
unfolding sync_name_record upsert_name_record statement
name_record-Keeps parse_number height time n m doc status s none h = rw h (Keeps-refl s)
name_record-Keeps parse_number height time n m doc status s (some _) h =
    rw h (record { namespaces = λ k. Founding-refl _; names = upsert-Creation (n, m) _ s.records })

-- Whatever event of the names module comes, and whether its statements succeed or are refused, no
-- namespace and no name is lost, a namespace keeps the height and the time of its creation, and a
-- name the time of its creation.
pub sync_names_event-Keeps :
    (parse_number : String → Option ℕ) (height time : ℕ) (event : NamesEvent) (s : NamesDb)
    → Keeps s (sync_names_event parse_number height time event (running s)).1.db
unfolding sync_names_event sync_namespace upsert_namespace apply_name_transfer apply_name_status
    insert_name_transfer insert_name_status_change query ◌>>=◌
sync_names_event-Keeps parse_number height time (namespace_created name ns) s = record {
  namespaces = upsert-Founding name _ s.namespaces;
  names = λ k. Creation-refl _;
}
sync_names_event-Keeps parse_number height time (namespace_updated name ns) s = record {
  namespaces = upsert-Founding name _ s.namespaces;
  names = λ k. Creation-refl _;
}
sync_names_event-Keeps parse_number height time (name_registered n m doc status) s =
    name_record-Keeps parse_number height time n m doc status s _ refl
sync_names_event-Keeps parse_number height time (name_updated n m doc status) s =
    name_record-Keeps parse_number height time n m doc status s _ refl
sync_names_event-Keeps parse_number height time (name_transferred n m from_did to_did by) s =
    record {
      namespaces = λ k. Founding-refl _;
      names = λ k. update-Creation (n, m) _ s.records k (λ r. refl);
    }
sync_names_event-Keeps parse_number height time (name_status_changed n m old new by reason) s =
    record {
      namespaces = λ k. Founding-refl _;
      names = λ k. update-Creation (n, m) _ s.records k (λ r. refl);
    }
