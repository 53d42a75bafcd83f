-- ===== src/JsonStore/Reading.antt =====
-- A disk that holds the sessions of an in-memory store, and the reads of it.
use aifluxon.Core.Message.{SessionId}
use aifluxon.JsonStore.{
  sorted_ids, Codec, Io, Disk, Action, schema_version, then_do, check, checked, read_file,
  load_record, list_sync, load_all, with_found,
}
use aifluxon.Sessions.{sort_summaries, SessionRecord, SessionStore, SessionSummary, StoreError}
use aifluxon.Prelude.Map.{lookup}
use aifluxon.Prelude.{
  ◌≡◌, refl, ap, ◌∙◌, false, Option, none, some, List, [], ◌∷◌, String, Result, ok, err, arith,
}

-- A step that goes through.
pub through :
    {A B C : Type 0} (x : Result StoreError A × Disk B) (f : A → Action B C) (a : A) (d : Disk B)
    (y : Result StoreError C × Disk B)
    → x ≡ (ok a, d)
    → f a d ≡ y
    → then_do x f ≡ y
through x f a d y e h = ap (λ z. then_do z f) e ∙ h

-- A step that fails ends the chain.
pub stopped :
    {A B C : Type 0} (x : Result StoreError A × Disk B) (f : A → Action B C) (e : StoreError)
    (d : Disk B)
    → x ≡ (err e, d)
    → then_do x f ≡ (err e, d)
stopped x f e d h = ap (λ z. then_do z f) h

pub check-none :
    {B : Type 0} (trouble : Option String) (d : Disk B)
    → trouble ≡ none
    → check trouble d ≡ (ok tt, d)
check-none trouble d e = ap (λ z. check z d) e

module _ {V B : Type 0} (codec : Codec V B) (io : Io) where
  -- A file holds the record of its session in the present schema.
  abbrev pub Holds : SessionId → Option B → Option (SessionRecord V) → Type 0
  Holds id none none = Unit
  Holds id (some bytes) (some r) = (codec.decode bytes ≡ some (schema_version, r)) × (r.id ≡ id)
  Holds id none (some r) = ⊥
  Holds id (some bytes) none = ⊥

  -- The disk holds the sessions of the in-memory store, each in its file.
  pub record Represents (d : Disk B) (s : SessionStore V) : Type 0 where
    pub live : s.poisoned ≡ false
    pub files : (id : SessionId) → Holds id (lookup id d.records) (lookup id s.records)

  read_file-Holds :
      (id : SessionId) (file : Option B) (stored : Option (SessionRecord V)) (d : Disk B)
      → Holds id file stored
      → read_file codec io id file d ≡ (ok stored, d)
  unfolding read_file checked
  read_file-Holds id none none d h = refl
  read_file-Holds id (some bytes) (some r) d h = rw (h.0, checked) (ground (arith, h.1))
  read_file-Holds id none (some r) d h = elim h [ ]
  read_file-Holds id (some bytes) none d h = elim h [ ]

  -- The file system refuses nothing that a read of records needs.
  pub record Readable : Type 0 where
    pub unlocked : io.lock_error ≡ none
    pub layout : io.layout_error ≡ none
    pub entries : io.read_dir_error ≡ none
    pub read : (id : SessionId) → io.read_error id ≡ none

  pub load_record-Represents :
      (id : SessionId) (d : Disk B) (s : SessionStore V)
      → Readable
      → Represents d s
      → load_record codec io id d ≡ (ok (lookup id s.records), d)
  unfolding load_record
  load_record-Represents id d s q h =
      through (check io.layout_error d) _ tt d _ (check-none io.layout_error d q.layout) (
        through (check (io.read_error id) d) _ tt d _ (check-none (io.read_error id) d (q.read id))
          (read_file-Holds id (lookup id d.records) (lookup id s.records) d (h.files id)))

  -- The summaries of the sessions with these identifiers.
  pub summaries : List SessionId → SessionStore V → List SessionSummary
  summaries [] s = []
  summaries (id ∷ ids) s = with_found (lookup id s.records) (summaries ids s)

  load_all-Represents :
      (ids : List SessionId) (d : Disk B) (s : SessionStore V)
      → Readable
      → Represents d s
      → load_all codec io ids d ≡ (ok (summaries ids s), d)
  unfolding load_all summaries
  load_all-Represents [] d s q h = refl
  load_all-Represents (id ∷ ids) d s q h =
      through (load_record codec io id d) _ (lookup id s.records) d _
        (load_record-Represents id d s q h)
        (through (load_all codec io ids d) _ (summaries ids s) d _ (load_all-Represents ids d s q h)
          refl)

  pub list_sync-Represents :
      (d : Disk B) (s : SessionStore V)
      → Readable
      → Represents d s
      → list_sync codec io d ≡ (ok (sort_summaries (summaries (sorted_ids d.records) s)), d)
  unfolding list_sync
  list_sync-Represents d s q h =
      through (check io.layout_error d) _ tt d _ (check-none io.layout_error d q.layout) (
        through (check io.read_dir_error d) _ tt d _ (check-none io.read_dir_error d q.entries) (
          through (load_all codec io (sorted_ids d.records) d) _
            (summaries (sorted_ids d.records) s) d _
            (load_all-Represents (sorted_ids d.records) d s q h) refl))
