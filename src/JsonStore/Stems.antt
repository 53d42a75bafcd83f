-- ===== src/JsonStore/Stems.antt =====
-- Provider states in files: apart where the stems differ, and lost where two providers share one.
use text.Mathlib.Text.{◌==◌ as str_eq}
use text.Mathlib.TextEquality.{eq_iff}
use aifluxon.Core.Message.{SessionId}
use aifluxon.JsonStore.{Io}
use aifluxon.JsonStore.ProviderStates.{
  ProviderRecord, StateCodec, Files, find, drop_file, quarantine, is_other, checked, read_file,
  first_error, load, save, sanitize_provider_stem,
}
use aifluxon.Sessions.{corrupt_quarantined}
use aifluxon.Prelude.{
  ◌==◌, if◌then◌else◌, ◌≡◌, ◌≢◌, refl, false, ◌&&◌, Option, none, some, [], ◌∷◌, String, ok, err,
  arith, sym, ap, ◌∙◌,
}

module _ {B : Type 0} where
  find-drop_file :
      (s t : SessionId) (stem other : String) (files : Files B)
      → find t other (drop_file s stem files)
        ≡ (if s == t && str_eq stem other then none else find t other files)
  unfolding find drop_file
  find-drop_file s t stem other [] = ground arith
  find-drop_file s t stem other (((u, name), bytes) ∷ more) = ground (
    arith,
    find-drop_file s t stem other more,
    eq_iff name stem,
    eq_iff name other,
    eq_iff stem other,
  )

module _ {V B : Type 0} (codec : StateCodec V B) (io : Io) where
  -- The file system refuses nothing.
  pub record IsQuiet : Type 0 where
    pub lock : io.lock_error ≡ none
    pub layout : io.layout_error ≡ none
    pub write : io.write_error ≡ none
    pub rename : io.rename_error ≡ none
    pub read : (id : SessionId) → io.read_error id ≡ none

  -- The files after a save that went through.
  stored : ProviderRecord V → B → Files B → Files B
  stored r bytes files =
      ((r.session_id, sanitize_provider_stem r.provider_id), bytes)
      ∷ drop_file r.session_id (sanitize_provider_stem r.provider_id) files

  save-eq :
      (r : ProviderRecord V) (bytes : B) (files : Files B)
      → IsQuiet
      → codec.encode r ≡ ok bytes
      → save codec io r files ≡ (ok tt, stored r bytes files)
  unfolding save stored
  save-eq r bytes files q e = ground (arith, q.lock, q.write)

  first_error-eq : (session : SessionId) → IsQuiet → first_error codec io session ≡ none
  unfolding first_error
  first_error-eq session q = ground (arith, q.lock, q.layout, q.read session)

  load-eq :
      (session : SessionId) (provider : String) (files : Files B)
      → IsQuiet
      → load codec io session provider files
        ≡ read_file codec io session provider files
            (find session (sanitize_provider_stem provider) files)
  unfolding load
  load-eq session provider files q = ground (arith, first_error-eq session q)

  find-stored :
      (r : ProviderRecord V) (bytes : B) (files : Files B) (session : SessionId) (stem : String)
      → find session stem (stored r bytes files) ≡ (
          if r.session_id == session && str_eq (sanitize_provider_stem r.provider_id) stem
          then some bytes
          else find session stem files)
  unfolding stored find
  find-stored r bytes files session stem =
      ground (
        arith,
        find-drop_file r.session_id session (sanitize_provider_stem r.provider_id) stem files,
      )

  read_own :
      (r : ProviderRecord V) (bytes : B) (files : Files B)
      → codec.decode bytes ≡ some r
      → read_file codec io r.session_id r.provider_id files (some bytes) ≡ (ok (some r), files)
  unfolding read_file checked is_other
  read_own r bytes files e = ground (arith, e, eq_iff r.provider_id r.provider_id)

  read_shared :
      (r : ProviderRecord V) (provider : String) (bytes : B) (files : Files B)
      → IsQuiet
      → codec.decode bytes ≡ some r
      → str_eq r.provider_id provider ≡ false
      → read_file codec io r.session_id provider files (some bytes) ≡ (
        err (corrupt_quarantined (io.quarantine_name r.session_id)),
        drop_file r.session_id (sanitize_provider_stem provider) files,
      )
  unfolding read_file checked is_other quarantine
  read_shared r provider bytes files q e other = ground (arith, e, q.rename, other)

  -- The answer does not depend on the other files.
  read_file-answer :
      (session : SessionId) (provider : String) (f g : Files B) (file : Option B)
      → (read_file codec io session provider f file).0
        ≡ (read_file codec io session provider g file).0
  unfolding read_file checked quarantine
  read_file-answer session provider f g none = refl
  read_file-answer session provider f g (some bytes) = ground arith

  found_own :
      (r : ProviderRecord V) (bytes : B) (files : Files B) (stem : String)
      → stem ≡ sanitize_provider_stem r.provider_id
      → find r.session_id stem (stored r bytes files) ≡ some bytes
  found_own r bytes files stem e =
      find-stored r bytes files r.session_id stem
      ∙ ground (arith, eq_iff (sanitize_provider_stem r.provider_id) stem)

  after_save :
      (r : ProviderRecord V) (bytes : B) (files : Files B)
      → IsQuiet
      → codec.encode r ≡ ok bytes
      → (save codec io r files).1 ≡ stored r bytes files
  after_save r bytes files q e = ap (λ x. x.1) (save-eq r bytes files q e)

  load_own :
      (r : ProviderRecord V) (bytes : B) (files : Files B)
      → IsQuiet
      → codec.decode bytes ≡ some r
      → load codec io r.session_id r.provider_id (stored r bytes files)
        ≡ (ok (some r), stored r bytes files)
  load_own r bytes files q e =
      load-eq r.session_id r.provider_id (stored r bytes files) q
      ∙ ap (read_file codec io r.session_id r.provider_id (stored r bytes files))
          (found_own r bytes files (sanitize_provider_stem r.provider_id) refl)
      ∙ read_own r bytes (stored r bytes files) e

  load_other :
      (r : ProviderRecord V) (bytes : B) (files : Files B) (session : SessionId) (provider : String)
      → IsQuiet
      → (r.session_id == session
          && str_eq (sanitize_provider_stem r.provider_id) (sanitize_provider_stem provider))
        ≡ false
      → (load codec io session provider (stored r bytes files)).0
        ≡ (load codec io session provider files).0
  load_other r bytes files session provider q apart =
      let stem = sanitize_provider_stem provider in
      ap (λ x. x.0) (load-eq session provider (stored r bytes files) q)
      ∙ ap (λ file. (read_file codec io session provider (stored r bytes files) file).0)
          (find-stored r bytes files session stem ∙ ground (arith, apart))
      ∙ read_file-answer session provider (stored r bytes files) files (find session stem files)
      ∙ ap (λ x. x.0) (sym (load-eq session provider files q))

  load_shared :
      (r : ProviderRecord V) (provider : String) (bytes : B) (files : Files B)
      → IsQuiet
      → codec.decode bytes ≡ some r
      → r.provider_id ≢ provider
      → sanitize_provider_stem provider ≡ sanitize_provider_stem r.provider_id
      → load codec io r.session_id provider (stored r bytes files) ≡ (
        err (corrupt_quarantined (io.quarantine_name r.session_id)),
        drop_file r.session_id (sanitize_provider_stem provider) (stored r bytes files),
      )
  load_shared r provider bytes files q e other same =
      load-eq r.session_id provider (stored r bytes files) q
      ∙ ap (read_file codec io r.session_id provider (stored r bytes files))
          (found_own r bytes files (sanitize_provider_stem provider) same)
      ∙ read_shared r provider bytes (stored r bytes files) q e
          (ground (arith, eq_iff r.provider_id provider, other))

  read_nothing :
      (session : SessionId) (provider : String) (files : Files B)
      → (read_file codec io session provider files none).0 ≡ ok none
  unfolding read_file
  read_nothing session provider files = refl

  load_gone :
      (session : SessionId) (provider stem : String) (files : Files B)
      → IsQuiet
      → stem ≡ sanitize_provider_stem provider
      → (load codec io session provider (drop_file session stem files)).0 ≡ ok none
  load_gone session provider stem files q e =
      ap (λ x. x.0) (load-eq session provider (drop_file session stem files) q)
      ∙ ap (λ file. (read_file codec io session provider (drop_file session stem files) file).0)
          (find-drop_file session session stem (sanitize_provider_stem provider) files
            ∙ ground (arith, eq_iff stem (sanitize_provider_stem provider)))
      ∙ read_nothing session provider (drop_file session stem files)

  -- After a save that went through, where the file system refuses nothing and the record is decoded
  -- as it was encoded, the record is what its session and provider load, and every pair with another
  -- session or another stem gets the answer that it got before.
  pub load-save :
      (r : ProviderRecord V) (bytes : B) (files : Files B) (session : SessionId) (provider : String)
      → IsQuiet
      → codec.encode r ≡ ok bytes
      → codec.decode bytes ≡ some r
      → (r.session_id == session
          && str_eq (sanitize_provider_stem r.provider_id) (sanitize_provider_stem provider))
        ≡ false
      → ((load codec io r.session_id r.provider_id (save codec io r files).1).0 ≡ ok (some r))
        × ((load codec io session provider (save codec io r files).1).0
            ≡ (load codec io session provider files).0)
  load-save r bytes files session provider q encodes decodes apart = (
    ap (λ f. (load codec io r.session_id r.provider_id f).0) (after_save r bytes files q encodes)
        ∙ ap (λ x. x.0) (load_own r bytes files q decodes),
    ap (λ f. (load codec io session provider f).0) (after_save r bytes files q encodes)
        ∙ load_other r bytes files session provider q apart,
  )

  -- Where the file system refuses nothing and the record is decoded as it was encoded, and
  -- another provider's id gives the same stem, loading that provider's state after a save moves
  -- the saved file away, and after it the state that was saved is gone.
  pub shared_stem_loses :
      (r : ProviderRecord V) (provider : String) (bytes : B) (files : Files B)
      → IsQuiet
      → codec.encode r ≡ ok bytes
      → codec.decode bytes ≡ some r
      → r.provider_id ≢ provider
      → sanitize_provider_stem provider ≡ sanitize_provider_stem r.provider_id
      → ((load codec io r.session_id provider (save codec io r files).1).0
          ≡ err (corrupt_quarantined (io.quarantine_name r.session_id)))
        × ((load codec io r.session_id r.provider_id
              (load codec io r.session_id provider (save codec io r files).1).1).0
            ≡ ok none)
  shared_stem_loses r provider bytes files q encodes decodes other same =
      let gone = load_shared r provider bytes files q decodes other same in
      let stem = sanitize_provider_stem provider in
      (
        ap (λ f. (load codec io r.session_id provider f).0) (after_save r bytes files q encodes)
            ∙ ap (λ x. x.0) gone,
        ap
              (λ f.
                (load codec io r.session_id r.provider_id
                  (load codec io r.session_id provider f).1).0)
              (after_save r bytes files q encodes)
            ∙ ap (λ x. (load codec io r.session_id r.provider_id x.1).0) gone
            ∙ load_gone r.session_id r.provider_id stem (stored r bytes files) q same,
      )
