-- ===== src/Examples/Files.antt =====
-- A session saved in an empty directory, with files that hold their content as it is.
use text.Mathlib.Text.{◌==◌ as str_eq}
use text.Mathlib.TextEquality.{eq_iff}
use aifluxon.JsonStore.ProviderStates.{
  StateCodec, ProviderRecord, load, save, sanitize_provider_stem,
}
use aifluxon.JsonStore.Stems.{IsQuiet, load-save, shared_stem_loses}
use aifluxon.Prelude.{◌==◌, ◌&&◌, ◌≢◌, arith}
use aifluxon.JsonStore
use aifluxon.JsonStore.{Codec, Io, Disk, schema_version}
use aifluxon.JsonStore.Reading.{Readable, Represents}
use aifluxon.JsonStore.Refinement.{kept, save_refines, save_unindexed}
use aifluxon.Sessions.{
  corrupt_quarantined, SessionRecord, SessionStore, is_current, bumped, unavailable,
}
use aifluxon.Prelude.Map.{lookup, insert}
use aifluxon.Prelude.{ℕ, false, true, none, some, [], ok, err, map_ok, refl, ◌≡◌, String}
use aifluxon.Sessions

abbrev plain : Codec String (ℕ × SessionRecord String)
plain = record { encode = λ version r. ok (version, r); decode = λ bytes. some bytes }

abbrev quiet : Io
quiet = record {
  lock_error = none;
  layout_error = none;
  rename_error = none;
  write_error = none;
  index_error = none;
  remove_error = none;
  read_dir_error = none;
  read_error = λ id. none;
  quarantine_name = λ id. "corrupt";
}

abbrev full_disk : Io
full_disk = record quiet { index_error = some "no space" }

abbrev empty_disk : Disk (ℕ × SessionRecord String)
empty_disk = record { records = []; quarantined = []; index = [] }

abbrev empty_store : SessionStore String
empty_store = record { records = []; poisoned = false }

abbrev fresh_session : SessionRecord String
fresh_session = record {
  id = 4;
  revision = 0;
  created_at = 10;
  updated_at = 10;
  messages = [];
  metadata = [];
}

quiet_Readable : Readable plain quiet
quiet_Readable = record { unlocked = refl; layout = refl; entries = refl; read = λ id. refl }

full_Readable : Readable plain full_disk
full_Readable = record { unlocked = refl; layout = refl; entries = refl; read = λ id. refl }

empty_Represents : Represents plain quiet empty_disk empty_store
unfolding lookup
empty_Represents = record { live = refl; files = λ id. tt }

full_Represents : Represents plain full_disk empty_disk empty_store
unfolding lookup
full_Represents = record { live = refl; files = λ id. tt }

save_refines_example :
    ((JsonStore.save plain quiet 11 fresh_session empty_disk).0
      ≡ map_ok (λ p. p.0) (Sessions.save 11 fresh_session empty_store))
    × Represents plain quiet
        (JsonStore.save plain quiet 11 fresh_session empty_disk).1
        (kept empty_store (Sessions.save 11 fresh_session empty_store))
save_refines_example =
    save_refines plain quiet 11 fresh_session empty_disk empty_store
      (schema_version, bumped 11 fresh_session) quiet_Readable refl refl refl refl empty_Represents

fresh_is_current : is_current (lookup 4 empty_store.records) fresh_session ≡ true
unfolding is_current lookup
fresh_is_current = refl

save_unindexed_example :
    (JsonStore.save plain full_disk 11 fresh_session empty_disk ≡ (
      err (unavailable "no space"),
      record empty_disk {
        records = insert 4 (schema_version, bumped 11 fresh_session) empty_disk.records;
      },
    ))
    × Represents plain full_disk
        (record empty_disk {
          records = insert 4 (schema_version, bumped 11 fresh_session) empty_disk.records;
        })
        (record empty_store { records = insert 4 (bumped 11 fresh_session) empty_store.records })
save_unindexed_example =
    save_unindexed plain full_disk 11 fresh_session empty_disk empty_store
      (schema_version, bumped 11 fresh_session) "no space" full_Readable refl refl refl refl
      full_Represents fresh_is_current

abbrev exact : StateCodec String (ProviderRecord String)
exact = record { encode = λ r. ok r; decode = λ bytes. some bytes }

abbrev saved_state : ProviderRecord String
saved_state = record { session_id = 4; provider_id = "a/b"; state = "token" }

exact_quiet : IsQuiet exact quiet
exact_quiet = record { lock = refl; layout = refl; write = refl; rename = refl; read = λ id. refl }

stems_apart :
    (saved_state.session_id == 4
      && str_eq (sanitize_provider_stem saved_state.provider_id) (sanitize_provider_stem "c"))
    ≡ false
unfolding sanitize_provider_stem
stems_apart = refl

load-save_example :
    ((load exact quiet 4 "a/b" (save exact quiet saved_state []).1).0 ≡ ok (some saved_state))
    × ((load exact quiet 4 "c" (save exact quiet saved_state []).1).0
        ≡ (load exact quiet 4 "c" []).0)
load-save_example =
    load-save exact quiet saved_state saved_state [] 4 "c" exact_quiet refl refl stems_apart

slash_is_underscore : sanitize_provider_stem "a_b" ≡ sanitize_provider_stem "a/b"
unfolding sanitize_provider_stem
slash_is_underscore = refl

slash_not_underscore : saved_state.provider_id ≢ "a_b"
slash_not_underscore e = ground (arith, eq_iff "a/b" "a_b")

shared_stem_loses_example :
    ((load exact quiet 4 "a_b" (save exact quiet saved_state []).1).0
      ≡ err (corrupt_quarantined "corrupt"))
    × ((load exact quiet 4 "a/b" (load exact quiet 4 "a_b" (save exact quiet saved_state []).1).1).0
        ≡ ok none)
shared_stem_loses_example =
    shared_stem_loses exact quiet saved_state "a_b" saved_state [] exact_quiet refl refl
      slash_not_underscore slash_is_underscore
