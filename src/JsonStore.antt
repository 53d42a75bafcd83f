-- ===== src/JsonStore.antt =====
-- crates/aifluxon-runtime/src/json_store.rs: sessions as JSON files. A `Disk` holds the files of the
-- directory by the session that names them, and `Io` says what the file system refuses in one call.
-- Every method holds the lock file, so a method is one step. Files that the store did not write are
-- not modelled. Hyphenated UUIDs compare as their numbers do.
pub mod Reading
pub mod Refinement
pub mod ProviderStates
pub mod Stems
use aifluxon.Core.Message.{SessionId}
use aifluxon.Sessions.{
  SessionRecord, SessionSummary, StoreError, unavailable, corrupt_quarantined, conflict, is_current,
  bumped, summary, sort_summaries,
}
use aifluxon.Prelude.Map.{Map, lookup, insert, remove}
use aifluxon.Prelude.{
  ℕ, leb, ◌==◌, if◌then◌else◌, Bool, true, false, not, ◌||◌, Option, none, some, List, [], ◌∷◌,
  String, ◌<>◌, Result, ok, err,
}

abbrev pub schema_version : ℕ
schema_version = 1

-- serde_json on SessionEnvelope, a schema version and a record; B is the content of a file.
pub record Codec (V B : Type 0) : Type 0 where
  pub encode : ℕ → SessionRecord V → Result String B
  pub decode : B → Option (ℕ × SessionRecord V)

-- The file system's errors in one call, and the name that a quarantined file is given.
pub record Io : Type 0 where
  pub lock_error : Option String
  pub layout_error : Option String
  pub rename_error : Option String
  pub write_error : Option String
  pub index_error : Option String
  pub remove_error : Option String
  pub read_dir_error : Option String
  pub read_error : SessionId → Option String
  pub quarantine_name : SessionId → String

pub record Disk (B : Type 0) : Type 0 where
  pub records : Map B
  pub quarantined : List B
  pub index : List SessionSummary

abbrev pub Action : Type 0 → Type 0 → Type 0
Action B A = Disk B → Result StoreError A × Disk B

abbrev pub then_do :
    {A B C : Type 0}
    → Result StoreError A × Disk B
    → (A → Action B C)
    → Result StoreError C × Disk B
then_do (ok a, d) f = f a d
then_do (err e, d) f = (err e, d)

infixl 5 ◌>>=◌ ◌>>◌
abbrev pub ◌>>=◌ : {A B C : Type 0} → Action B A → (A → Action B C) → Action B C
◌>>=◌ m f d = then_do (m d) f

abbrev pub ◌>>◌ : {A B C : Type 0} → Action B A → Action B C → Action B C
◌>>◌ m k d = then_do (m d) (λ _. k)

-- A call that the file system may refuse.
abbrev pub check : {B : Type 0} → Option String → Action B (Unit {0})
check none d = (ok tt, d)
check (some message) d = (err (unavailable message), d)

abbrev pub require : {B : Type 0} → Bool → StoreError → Action B (Unit {0})
require true e d = (ok tt, d)
require false e d = (err e, d)

abbrev pub taken : {B : Type 0} → SessionId → Disk B → Option B → Disk B
taken id d none = d
taken id d (some bytes) = record d {
  records = remove id d.records;
  quarantined = bytes ∷ d.quarantined;
}

-- entries.sort_by_key(...), on the identifiers that name the files.
insert_id : SessionId → List SessionId → List SessionId
insert_id x [] = x ∷ []
insert_id x (y ∷ ys) = let rest = insert_id x ys in if leb x y then x ∷ y ∷ ys else y ∷ rest

unfoldable pub sorted_ids : {B : Type 0} → Map B → List SessionId
unfolding insert_id
sorted_ids [] = []
sorted_ids ((id, bytes) ∷ more) = insert_id id (sorted_ids more)

unfoldable pub with_found :
    {V : Type 0} → Option (SessionRecord V) → List SessionSummary → List SessionSummary
with_found none rest = rest
with_found (some r) rest = summary r ∷ rest

module _ {V B : Type 0} (codec : Codec V B) (io : Io) where
  -- The file gets another name, which the store does not read again.
  unfoldable pub quarantine_corrupt : {A : Type 0} → SessionId → Action B A
  quarantine_corrupt id d = elim io.rename_error [
    | none ↦ (err (corrupt_quarantined (io.quarantine_name id)), taken id d (lookup id d.records))
    | some message ↦ (err (unavailable ("corrupt record could not be quarantined: " <> message)), d)
  ]

  unfoldable pub checked :
      SessionId → Option (ℕ × SessionRecord V) → Action B (Option (SessionRecord V))
  unfolding quarantine_corrupt
  checked id none d = quarantine_corrupt id d
  checked id (some (version, r)) d =
      if not (version == schema_version) || not (r.id == id)
      then quarantine_corrupt id d
      else (ok (some r), d)

  unfoldable pub read_file : SessionId → Option B → Action B (Option (SessionRecord V))
  unfolding checked
  read_file id none d = (ok none, d)
  read_file id (some bytes) d = checked id (codec.decode bytes) d

  unfoldable pub load_record : SessionId → Action B (Option (SessionRecord V))
  unfolding read_file
  load_record id = do
    check io.layout_error
    check (io.read_error id)
    λ d. read_file id (lookup id d.records) d

  unfoldable pub load_all : List SessionId → Action B (List SessionSummary)
  unfolding load_record
  load_all [] d = (ok [], d)
  load_all (id ∷ ids) d =
      then_do (load_record id d)
        λ found d'. then_do (load_all ids d') λ rest d''. (ok (with_found found rest), d'')

  unfoldable pub list_sync : Action B (List SessionSummary)
  unfolding load_all sort_summaries
  list_sync = do
    check io.layout_error
    check io.read_dir_error
    summaries ← λ d. load_all (sorted_ids d.records) d
    λ d. (ok (sort_summaries summaries), d)

  unfoldable pub put_index : List SessionSummary → Action B (Unit {0})
  put_index summaries = do check io.index_error; λ d. (ok tt, record d { index = summaries })

  unfoldable pub write_index : Action B (Unit {0})
  unfolding list_sync put_index
  write_index = list_sync >>= put_index

  unfoldable pub load : SessionId → Action B (Option (SessionRecord V))
  unfolding load_record
  load id = do check io.lock_error; load_record id

  unfoldable pub encoded : SessionRecord V → Action B B
  encoded r d = elim (codec.encode schema_version r) [
    | ok bytes ↦ (ok bytes, d)
    | err message ↦ (err (unavailable message), d)
  ]

  unfoldable pub put_record : SessionId → B → Action B (Unit {0})
  put_record id bytes = do
    check io.write_error
    λ d. (ok tt, record d { records = insert id bytes d.records })

  unfoldable pub save : ℕ → SessionRecord V → Action B (SessionRecord V)
  unfolding load_record is_current bumped encoded put_record write_index
  save now r = do
    check io.lock_error
    existing ← load_record r.id
    require (is_current existing r) conflict
    bytes ← encoded (bumped now r)
    put_record r.id bytes
    write_index
    λ d. (ok (bumped now r), d)

  -- A file that is not there counts as removed.
  unfoldable pub remove_file : SessionId → Option B → Action B (Unit {0})
  remove_file id none d = (ok tt, d)
  remove_file id (some bytes) d =
      then_do (check io.remove_error d)
        λ _ d'. (ok tt, record d' { records = remove id d'.records })

  unfoldable pub delete : SessionId → Action B (Unit {0})
  unfolding remove_file write_index
  delete id = do
    check io.lock_error
    check io.layout_error
    λ d. remove_file id (lookup id d.records) d
    write_index

  unfoldable pub list : Action B (List SessionSummary)
  unfolding list_sync put_index
  list = do check io.lock_error; summaries ← list_sync; put_index summaries; λ d. (ok summaries, d)
