-- ===== src/Examples/Sessions.antt =====
-- A session that two writers save, with the list and the provider states.
use aifluxon.Sessions.{
  SessionRecord, SessionStore, ProviderStateRecord, ProviderStateStore, save, conflict, load_state,
  save_state, list, summary,
}
use aifluxon.Sessions.Exclusive.{saves, write_all, save_once}
use aifluxon.Sessions.Listing.{IsSorted, list-IsSorted}
use aifluxon.Sessions.Isolation.{load_state-save_state}
use mathlib.Core.List.{Perm}
use aifluxon.Prelude.Map.{lookup, insert}
use aifluxon.Prelude.{ℕ, ◌≡◌, refl, false, some, [], ◌∷◌, arith, ok, err}

abbrev draft : SessionRecord ℕ
draft = record {
  id = 3;
  revision = 0;
  created_at = 10;
  updated_at = 10;
  messages = [];
  metadata = [];
}

abbrev vacant : SessionStore ℕ
vacant = record { records = []; poisoned = false }

abbrev filed : SessionRecord ℕ
filed = record draft { revision = 1; updated_at = 20 }

abbrev shelf : SessionStore ℕ
shelf = record { records = (3, filed) ∷ []; poisoned = false }

save_once_example : save 40 draft (write_all shelf (saves 30 filed ∷ [])) ≡ err conflict
unfolding save insert lookup
save_once_example =
    save_once vacant shelf 20 40 draft draft filed (saves 30 filed ∷ []) refl (omega arith) (tt, tt)
      refl refl

-- A session that was saved later.
abbrev recent : SessionRecord ℕ
recent = record filed { id = 5; updated_at = 25 }

abbrev two_sessions : SessionStore ℕ
two_sessions = record { records = (3, filed) ∷ (5, recent) ∷ []; poisoned = false }

list-IsSorted_example :
    IsSorted (summary recent ∷ summary filed ∷ [])
    × Perm (summary recent ∷ summary filed ∷ []) (summary filed ∷ summary recent ∷ [])
unfolding list
list-IsSorted_example = list-IsSorted two_sessions (summary recent ∷ summary filed ∷ []) refl

abbrev cursor : ProviderStateRecord ℕ
cursor = record { session_id = 3; provider_id = 8; state = 99 }

abbrev no_states : ProviderStateStore ℕ
no_states = record { records = []; poisoned = false }

abbrev states : ProviderStateStore ℕ
states = record { records = ((3, 8), cursor) ∷ []; poisoned = false }

load_state-save_state_example : load_state 3 8 states ≡ ok (some cursor)
unfolding save_state
load_state-save_state_example = load_state-save_state no_states states cursor 3 8 refl
