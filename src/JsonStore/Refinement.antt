-- ===== src/JsonStore/Refinement.antt =====
-- The session files against the in-memory store of sessions.
use aifluxon.JsonStore.Reading.{
  through, stopped, check-none, Represents, Readable, load_record-Represents, list_sync-Represents,
  summaries,
}
use aifluxon.Core.Message.{SessionId}
use aifluxon.JsonStore.{
  sorted_ids, Codec, Io, Disk, Action, schema_version, then_do, check, require, quarantine_corrupt,
  checked, read_file, load_record, encoded, put_record, write_index, put_index, list_sync, load_all,
  with_found, save, load, unavailable,
}
use aifluxon.Sessions.{
  sort_summaries, SessionRecord, SessionStore, SessionSummary, StoreError, conflict, is_current,
  bumped,
}
use aifluxon.Prelude.Map.{lookup, insert, lookup-insert}
use aifluxon.Prelude.{
  map_ok, ℕ, ◌==◌, ==_iff, Bool-cases, ◌≡◌, refl, ap, ◌∙◌, inl, inr, true, false, none, some,
  String, Result, ok, err, sym,
}
use aifluxon.JsonStore
use aifluxon.Sessions

-- The store after a save, which a refused save leaves as it was.
abbrev pub kept :
    {V : Type 0}
    → SessionStore V
    → Result StoreError (SessionRecord V × SessionStore V)
    → SessionStore V
kept s (ok (r, t)) = t
kept s (err e) = s

module _ {V B : Type 0} (codec : Codec V B) (io : Io) where
  written : Disk B → SessionStore V → Disk B
  written d s = record d { index = sort_summaries (summaries codec io (sorted_ids d.records) s) }

  write_index-Represents :
      (d : Disk B) (s : SessionStore V)
      → Readable codec io
      → io.index_error ≡ none
      → Represents codec io d s
      → write_index codec io d ≡ (ok tt, written d s)
  unfolding write_index put_index written
  write_index-Represents d s q e h =
      through (list_sync codec io d) _
        (sort_summaries (summaries codec io (sorted_ids d.records) s)) d _
        (list_sync-Represents codec io d s q h)
        (through (check io.index_error d) _ tt d _ (check-none io.index_error d e) refl)

  put-Represents :
      (now : ℕ) (r : SessionRecord V) (d : Disk B) (s : SessionStore V) (bytes : B)
      → codec.decode bytes ≡ some (schema_version, bumped now r)
      → Represents codec io d s
      → Represents codec io
          (record d { records = insert r.id bytes d.records })
          (record s { records = insert r.id (bumped now r) s.records })
  unfolding bumped
  put-Represents now r d s bytes decoded h = record {
    live = h.live;
    files = λ id. elim (Bool-cases (r.id == id)) [
      | inl hit ↦
          rw
            (
              lookup-insert r.id id bytes d.records,
              lookup-insert r.id id (bumped now r) s.records,
              hit,
            )
            (decoded, (==_iff r.id id).0 hit)
      | inr miss ↦
          rw
            (
              lookup-insert r.id id bytes d.records,
              lookup-insert r.id id (bumped now r) s.records,
              miss,
            )
            (h.files id)
    ];
  }

  encoded-ok :
      (r : SessionRecord V) (bytes : B) (d : Disk B)
      → codec.encode schema_version r ≡ ok bytes
      → encoded codec io r d ≡ (ok bytes, d)
  unfolding encoded
  encoded-ok r bytes d e = rw (e, encoded)

  written-Represents :
      (d : Disk B) (s : SessionStore V)
      → Represents codec io d s
      → Represents codec io (written d s) s
  unfolding written
  written-Represents d s h = record { live = h.live; files = h.files }

  saved_in_memory :
      (now : ℕ) (r : SessionRecord V) (s : SessionStore V)
      → s.poisoned ≡ false
      → is_current (lookup r.id s.records) r ≡ true
      → Sessions.save now r s
        ≡ ok (bumped now r, record s { records = insert r.id (bumped now r) s.records })
  unfolding Sessions.save
  saved_in_memory now r s live current = rw (live, current)

  loaded_in_memory :
      (id : SessionId) (s : SessionStore V)
      → s.poisoned ≡ false
      → Sessions.load id s ≡ ok (lookup id s.records)
  unfolding Sessions.load
  loaded_in_memory id s live = rw live

  refused_in_memory :
      (now : ℕ) (r : SessionRecord V) (s : SessionStore V)
      → s.poisoned ≡ false
      → is_current (lookup r.id s.records) r ≡ false
      → Sessions.save now r s ≡ err conflict
  unfolding Sessions.save
  refused_in_memory now r s live stale = rw (live, stale)

  -- The steps of a save behind the test of the revision.
  save_steps :
      (now : ℕ) (r : SessionRecord V) (d : Disk B) (s : SessionStore V) (bytes : B)
      → Readable codec io
      → io.write_error ≡ none
      → io.index_error ≡ none
      → codec.encode schema_version (bumped now r) ≡ ok bytes
      → codec.decode bytes ≡ some (schema_version, bumped now r)
      → Represents codec io d s
      → is_current (lookup r.id s.records) r ≡ true
      → JsonStore.save codec io now r d ≡ (
        ok (bumped now r),
        written
            (record d { records = insert r.id bytes d.records })
            (record s { records = insert r.id (bumped now r) s.records }),
      )
  unfolding JsonStore.save encoded put_record
  save_steps now r d s bytes q writes indexes encodes decodes h current =
      through (check io.lock_error d) _ tt d _ (check-none io.lock_error d q.unlocked) (
        through (load_record codec io r.id d) _ (lookup r.id s.records) d _
          (load_record-Represents codec io r.id d s q h)
          (through (require (is_current (lookup r.id s.records) r) conflict d) _ tt d _
            (ap (λ b. require b conflict d) current)
            (through (encoded codec io (bumped now r) d) _ bytes d _
              (encoded-ok (bumped now r) bytes d encodes)
              (through (put_record codec io r.id bytes d) _ tt
                (record d { records = insert r.id bytes d.records }) _
                (through (check io.write_error d) _ tt d _ (check-none io.write_error d writes)
                  refl)
                (through (write_index codec io (record d { records = insert r.id bytes d.records }))
                  _ tt _ _
                  (write_index-Represents (record d { records = insert r.id bytes d.records })
                    (record s { records = insert r.id (bumped now r) s.records }) q indexes
                    (put-Represents now r d s bytes decodes h))
                  refl)))))

  stale_steps :
      (now : ℕ) (r : SessionRecord V) (d : Disk B) (s : SessionStore V)
      → Readable codec io
      → Represents codec io d s
      → is_current (lookup r.id s.records) r ≡ false
      → JsonStore.save codec io now r d ≡ (err conflict, d)
  unfolding JsonStore.save
  stale_steps now r d s q h stale =
      through (check io.lock_error d) _ tt d _ (check-none io.lock_error d q.unlocked) (
        through (load_record codec io r.id d) _ (lookup r.id s.records) d _
          (load_record-Represents codec io r.id d s q h)
          (stopped (require (is_current (lookup r.id s.records) r) conflict d) _ conflict d
            (ap (λ b. require b conflict d) stale)))

  -- While the file system lets the store read and write, and the saved record is encoded and
  -- decoded as it was, save answers what the in-memory store answers, conflicts included, and the
  -- files go on to hold the sessions of that store.
  pub save_refines :
      (now : ℕ) (r : SessionRecord V) (d : Disk B) (s : SessionStore V) (bytes : B)
      → Readable codec io
      → io.write_error ≡ none
      → io.index_error ≡ none
      → codec.encode schema_version (bumped now r) ≡ ok bytes
      → codec.decode bytes ≡ some (schema_version, bumped now r)
      → Represents codec io d s
      → ((JsonStore.save codec io now r d).0 ≡ map_ok (λ p. p.0) (Sessions.save now r s))
        × Represents codec io (JsonStore.save codec io now r d).1 (kept s (Sessions.save now r s))
  save_refines now r d s bytes q writes indexes encodes decodes h =
      elim (Bool-cases (is_current (lookup r.id s.records) r)) [
        | inl current ↦
            rw
              (
                save_steps now r d s bytes q writes indexes encodes decodes h current,
                saved_in_memory now r s h.live current,
              )
              (refl, written-Represents _ _ (put-Represents now r d s bytes decodes h))
        | inr stale ↦
            rw (stale_steps now r d s q h stale, refused_in_memory now r s h.live stale) (refl, h)
      ]

  -- While the file system lets the store read, `load` answers what the in-memory store answers and
  -- leaves the files as they are.
  load_refines :
      (id : SessionId) (d : Disk B) (s : SessionStore V)
      → Readable codec io
      → Represents codec io d s
      → JsonStore.load codec io id d ≡ (Sessions.load id s, d)
  unfolding JsonStore.load
  load_refines id d s q h =
      through (check io.lock_error d) _ tt d _ (check-none io.lock_error d q.unlocked) (
        load_record-Represents codec io id d s q h
        ∙ ap (λ x. (x, d)) (sym (loaded_in_memory id s h.live)))

  -- A save of a current record that is encoded and decoded as it was, where all but the index can
  -- be read and written, reports an error although the record already stands in its file under
  -- the next revision.
  pub save_unindexed :
      (now : ℕ) (r : SessionRecord V) (d : Disk B) (s : SessionStore V) (bytes : B)
      (message : String)
      → Readable codec io
      → io.write_error ≡ none
      → io.index_error ≡ some message
      → codec.encode schema_version (bumped now r) ≡ ok bytes
      → codec.decode bytes ≡ some (schema_version, bumped now r)
      → Represents codec io d s
      → is_current (lookup r.id s.records) r ≡ true
      → (JsonStore.save codec io now r d
          ≡ (err (unavailable message), record d { records = insert r.id bytes d.records }))
        × Represents codec io
            (record d { records = insert r.id bytes d.records })
            (record s { records = insert r.id (bumped now r) s.records })
  unfolding JsonStore.save put_record write_index put_index
  save_unindexed now r d s bytes message q writes indexes encodes decodes h current = (
    through (check io.lock_error d) _ tt d _ (check-none io.lock_error d q.unlocked) (
        through (load_record codec io r.id d) _ (lookup r.id s.records) d _
          (load_record-Represents codec io r.id d s q h)
          (through (require (is_current (lookup r.id s.records) r) conflict d) _ tt d _
            (ap (λ b. require b conflict d) current)
            (through (encoded codec io (bumped now r) d) _ bytes d _
              (encoded-ok (bumped now r) bytes d encodes)
              (through (put_record codec io r.id bytes d) _ tt
                (record d { records = insert r.id bytes d.records }) _
                (through (check io.write_error d) _ tt d _ (check-none io.write_error d writes)
                  refl)
                (stopped (write_index codec io (record d { records = insert r.id bytes d.records }))
                  _ (unavailable message) _
                  (through (list_sync codec io (record d { records = insert r.id bytes d.records }))
                    _ _ (record d { records = insert r.id bytes d.records }) _
                    (list_sync-Represents codec io
                      (record d { records = insert r.id bytes d.records })
                      (record s { records = insert r.id (bumped now r) s.records }) q
                      (put-Represents now r d s bytes decodes h))
                    (stopped
                      (check io.index_error (record d { records = insert r.id bytes d.records })) _
                      (unavailable message) _
                      (ap (λ z. check z (record d { records = insert r.id bytes d.records }))
                        indexes)))))))),
    put-Represents now r d s bytes decodes h,
  )
