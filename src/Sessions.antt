-- ===== src/Sessions.antt =====
-- crates/aifluxon-runtime/src/state.rs: the in-memory stores of sessions, provider states and run
-- checkpoints. `poisoned` is the state of a store's mutex, and now_millis is an argument. Provider
-- identifiers are numbers. Hyphenated UUIDs compare as their numbers do.
pub mod Exclusive
pub mod Listing
pub mod Isolation
use Prim.Native.String.{String}
use aifluxon.Core.Message.{SessionId, RunId, Message}
use aifluxon.Core.Run.{RunState, u64_max}
use aifluxon.Budget.{saturating_add}
use aifluxon.Prelude.Map.{Map, lookup, insert, remove, values}
use aifluxon.Prelude.{
  ltb, leb, ◌==◌, if◌then◌else◌, length, Result, guard, ℕ, Bool, not, ◌&&◌, Option, none, some,
  List, [], ◌∷◌, map, ok, ◌>>◌, ◌>>=◌,
}

pub data StoreError : Type 0 where
  unavailable corrupt_quarantined : String → StoreError
  conflict invalid_id : StoreError

pub record SessionRecord (V : Type 0) : Type 0 where
  pub id : SessionId
  pub revision : ℕ
  pub created_at : ℕ
  pub updated_at : ℕ
  pub messages : List (Message V)
  pub metadata : List (String × V)

pub record SessionSummary : Type 0 where
  pub id : SessionId
  pub revision : ℕ
  pub created_at : ℕ
  pub updated_at : ℕ
  pub message_count : ℕ

pub record ProviderStateRecord (V : Type 0) : Type 0 where
  pub session_id : SessionId
  pub provider_id : ℕ
  pub state : V

pub record RunCheckpoint (V : Type 0) : Type 0 where
  pub run_id : RunId
  pub session_id : Option SessionId
  pub state : RunState
  pub messages : List (Message V)
  pub provider_state : Option V
  pub updated_at : ℕ

pub record SessionStore (V : Type 0) : Type 0 where
  pub records : Map (SessionRecord V)
  pub poisoned : Bool

pub record ProviderStateStore (V : Type 0) : Type 0 where
  pub records : List ((SessionId × ℕ) × ProviderStateRecord V)
  pub poisoned : Bool

pub record RunCheckpointStore (V : Type 0) : Type 0 where
  pub records : Map (RunCheckpoint V)
  pub poisoned : Bool

-- lock().map_err(lock_error)?.
abbrev pub lock : Bool → Result StoreError (Unit {0})
lock poisoned = guard (not poisoned) (unavailable "state lock was poisoned")

-- (Reverse(a.updated_at), a.id) <= (Reverse(b.updated_at), b.id).
unfoldable pub comes_first : SessionSummary → SessionSummary → Bool
comes_first a b =
    if a.updated_at == b.updated_at then leb a.id b.id else ltb b.updated_at a.updated_at

unfoldable pub insert_summary : SessionSummary → List SessionSummary → List SessionSummary
unfolding comes_first
insert_summary x [] = x ∷ []
insert_summary x (y ∷ ys) =
    let rest = insert_summary x ys in if comes_first x y then x ∷ y ∷ ys else y ∷ rest

-- values.sort_by_key(...).
unfoldable pub sort_summaries : List SessionSummary → List SessionSummary
unfolding insert_summary
sort_summaries [] = []
sort_summaries (x ∷ xs) = insert_summary x (sort_summaries xs)

module _ {V : Type 0} where
  -- SessionRecord::new.
  unfoldable pub new : ℕ → SessionId → SessionRecord V
  new now id = record {
    id = id;
    revision = 0;
    created_at = now;
    updated_at = now;
    messages = [];
    metadata = [];
  }

  -- From<&SessionRecord>.
  abbrev pub summary : SessionRecord V → SessionSummary
  summary r = record {
    id = r.id;
    revision = r.revision;
    created_at = r.created_at;
    updated_at = r.updated_at;
    message_count = length r.messages;
  }

  unfoldable pub load : SessionId → SessionStore V → Result StoreError (Option (SessionRecord V))
  load id s = do lock s.poisoned; ok (lookup id s.records)

  -- The `match` of `save`: whether the revision that the caller saw is the stored one.
  unfoldable pub is_current : Option (SessionRecord V) → SessionRecord V → Bool
  is_current (some existing) r = existing.revision == r.revision
  is_current none r = r.revision == 0

  -- What `save` stores.
  unfoldable pub bumped : ℕ → SessionRecord V → SessionRecord V
  bumped now r = record r { revision = saturating_add u64_max r.revision 1; updated_at = now }

  unfoldable pub save :
      ℕ → SessionRecord V → SessionStore V → Result StoreError (SessionRecord V × SessionStore V)
  unfolding is_current bumped
  save now r s = do
    lock s.poisoned
    guard (is_current (lookup r.id s.records) r) conflict
    ok (bumped now r, record s { records = insert r.id (bumped now r) s.records })

  unfoldable pub delete : SessionId → SessionStore V → Result StoreError (SessionStore V)
  delete id s = do lock s.poisoned; ok (record s { records = remove id s.records })

  unfoldable pub list : SessionStore V → Result StoreError (List SessionSummary)
  unfolding sort_summaries
  list s = do lock s.poisoned; ok (sort_summaries (map summary (values s.records)))

  -- The HashMap of a pair of keys.
  unfoldable pub lookup_pair :
      SessionId
      → ℕ
      → List ((SessionId × ℕ) × ProviderStateRecord V)
      → Option (ProviderStateRecord V)
  lookup_pair session provider [] = none
  lookup_pair session provider (((s, p), r) ∷ more) =
      let rest = lookup_pair session provider more in
      if s == session && p == provider then some r else rest

  unfoldable pub remove_pair :
      SessionId
      → ℕ
      → List ((SessionId × ℕ) × ProviderStateRecord V)
      → List ((SessionId × ℕ) × ProviderStateRecord V)
  remove_pair session provider [] = []
  remove_pair session provider (((s, p), r) ∷ more) =
      let rest = remove_pair session provider more in
      if s == session && p == provider then rest else ((s, p), r) ∷ rest

  unfoldable pub load_state :
      SessionId → ℕ → ProviderStateStore V → Result StoreError (Option (ProviderStateRecord V))
  unfolding lookup_pair
  load_state session provider s = do lock s.poisoned; ok (lookup_pair session provider s.records)

  unfoldable pub save_state :
      ProviderStateRecord V → ProviderStateStore V → Result StoreError (ProviderStateStore V)
  unfolding remove_pair
  save_state r s = do
    lock s.poisoned
    ok (record s {
      records =
          ((r.session_id, r.provider_id), r) ∷ remove_pair r.session_id r.provider_id s.records;
    })

  unfoldable pub delete_state :
      SessionId → ℕ → ProviderStateStore V → Result StoreError (ProviderStateStore V)
  unfolding remove_pair
  delete_state session provider s = do
    lock s.poisoned
    ok (record s { records = remove_pair session provider s.records })

  unfoldable pub load_checkpoint :
      RunId → RunCheckpointStore V → Result StoreError (Option (RunCheckpoint V))
  load_checkpoint run_id s = do lock s.poisoned; ok (lookup run_id s.records)

  unfoldable pub save_checkpoint :
      RunCheckpoint V → RunCheckpointStore V → Result StoreError (RunCheckpointStore V)
  save_checkpoint c s = do lock s.poisoned; ok (record s { records = insert c.run_id c s.records })

  unfoldable pub delete_checkpoint :
      RunId → RunCheckpointStore V → Result StoreError (RunCheckpointStore V)
  delete_checkpoint run_id s = do
    lock s.poisoned
    ok (record s { records = remove run_id s.records })
