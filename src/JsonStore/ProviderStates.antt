-- ===== src/JsonStore/ProviderStates.antt =====
-- JsonFileProviderStateStore: one file for a session and the stem that a provider's id gives. A file
-- stands under the session and the stem that make its name.
use Prim.Native.Char.{code}
use text.Mathlib.Text.{◌==◌ as str_eq}
use aifluxon.Core.Message.{SessionId}
use aifluxon.JsonStore.{Io}
use aifluxon.Sessions.{StoreError, unavailable, corrupt_quarantined}
use aifluxon.Prelude.Strings.{is_empty_string}
use aifluxon.Prelude.{
  ℕ, leb, ◌==◌, if◌then◌else◌, Bool, not, ◌&&◌, ◌||◌, Option, none, some, List, [], ◌∷◌, String,
  ◌<>◌, Result, ok, err,
}

pub record ProviderRecord (V : Type 0) : Type 0 where
  pub session_id : SessionId
  pub provider_id : String
  pub state : V

-- ch.is_ascii_alphanumeric() || matches!(ch, '.' | '-' | '_'), on the code point.
unfoldable pub is_plain : ℕ → Bool
is_plain c =
    (leb b'0' c && leb c b'9')
    || ((leb b'A' c && leb c b'Z')
        || ((leb b'a' c && leb c b'z') || (c == b'.' || (c == b'-' || c == b'_'))))

unfoldable pub plain_text : String → String
unfolding is_plain
plain_text String.[] = ""
plain_text (String.◌∷◌ c s) =
    let rest = plain_text s in if is_plain (code c) then String.◌∷◌ c rest else "_" <> rest

unfoldable pub sanitize_provider_stem : String → String
unfolding plain_text
sanitize_provider_stem provider =
    if is_empty_string (plain_text provider) then "provider" else plain_text provider

-- serde_json on the records.
pub record StateCodec (V B : Type 0) : Type 0 where
  pub encode : ProviderRecord V → Result String B
  pub decode : B → Option (ProviderRecord V)

abbrev pub Files : Type 0 → Type 0
Files B = List ((SessionId × String) × B)

module _ {B : Type 0} where
  unfoldable pub find : SessionId → String → Files B → Option B
  find session stem [] = none
  find session stem (((s, name), bytes) ∷ more) =
      let rest = find session stem more in
      if s == session && str_eq name stem then some bytes else rest

  -- A rename to a name that is not read again, or a removal.
  unfoldable pub drop_file : SessionId → String → Files B → Files B
  drop_file session stem [] = []
  drop_file session stem (((s, name), bytes) ∷ more) =
      let rest = drop_file session stem more in
      if s == session && str_eq name stem then rest else ((s, name), bytes) ∷ rest

module _ {V B : Type 0} (codec : StateCodec V B) (io : Io) where
  unfoldable pub quarantine :
      SessionId → String → Files B → Result StoreError (Option (ProviderRecord V)) × Files B
  unfolding drop_file
  quarantine session stem files = elim io.rename_error [
    | none ↦ (err (corrupt_quarantined (io.quarantine_name session)), drop_file session stem files)
    | some message ↦
        (err (unavailable ("corrupt record could not be quarantined: " <> message)), files)
  ]

  -- record.session_id != *session_id || record.provider_id != *provider_id.
  unfoldable pub is_other : SessionId → String → ProviderRecord V → Bool
  is_other session provider r = not (r.session_id == session) || not (str_eq r.provider_id provider)

  unfoldable pub checked :
      SessionId
      → String
      → Files B
      → Option (ProviderRecord V)
      → Result StoreError (Option (ProviderRecord V)) × Files B
  unfolding quarantine is_other sanitize_provider_stem
  checked session provider files none = quarantine session (sanitize_provider_stem provider) files
  checked session provider files (some r) =
      if is_other session provider r
      then quarantine session (sanitize_provider_stem provider) files
      else (ok (some r), files)

  unfoldable pub read_file :
      SessionId
      → String
      → Files B
      → Option B
      → Result StoreError (Option (ProviderRecord V)) × Files B
  unfolding checked
  read_file session provider files none = (ok none, files)
  read_file session provider files (some bytes) =
      checked session provider files (codec.decode bytes)

  -- The errors of the lock, the layout and the read, in their order.
  unfoldable pub first_error : SessionId → Option String
  first_error session = elim io.lock_error [
    | some message ↦ some message
    | none ↦ elim io.layout_error [ some message ↦ some message | none ↦ io.read_error session ]
  ]

  unfoldable pub load :
      SessionId → String → Files B → Result StoreError (Option (ProviderRecord V)) × Files B
  unfolding first_error find read_file sanitize_provider_stem
  load session provider files = elim (first_error session) [
    | some message ↦ (err (unavailable message), files)
    | none ↦ read_file session provider files (find session (sanitize_provider_stem provider) files)
  ]

  unfoldable pub save : ProviderRecord V → Files B → Result StoreError (Unit {0}) × Files B
  unfolding drop_file sanitize_provider_stem
  save r files = elim io.lock_error [
    | some message ↦ (err (unavailable message), files)
    | none ↦ elim (codec.encode r) [
      | err message ↦ (err (unavailable message), files)
      | ok bytes ↦ elim io.write_error [
        | some message ↦ (err (unavailable message), files)
        | none ↦ (
          ok tt,
          ((r.session_id, sanitize_provider_stem r.provider_id), bytes)
              ∷ drop_file r.session_id (sanitize_provider_stem r.provider_id) files,
        )
      ]
    ]
  ]

  remove_found : SessionId → String → Files B → Option B → Result StoreError (Unit {0}) × Files B
  unfolding drop_file
  remove_found session stem files none = (ok tt, files)
  remove_found session stem files (some bytes) = elim io.remove_error [
    | some message ↦ (err (unavailable message), files)
    | none ↦ (ok tt, drop_file session stem files)
  ]

  unfoldable pub delete : SessionId → String → Files B → Result StoreError (Unit {0}) × Files B
  unfolding find remove_found sanitize_provider_stem
  delete session provider files = elim io.lock_error [
    | some message ↦ (err (unavailable message), files)
    | none ↦
        remove_found session (sanitize_provider_stem provider) files
          (find session (sanitize_provider_stem provider) files)
  ]
