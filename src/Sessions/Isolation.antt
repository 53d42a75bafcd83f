-- ===== src/Sessions/Isolation.antt =====
-- Provider states are kept apart by session and provider.
use aifluxon.Sessions.{
  ProviderStateRecord, ProviderStateStore, lookup_pair, remove_pair, load_state, save_state,
  delete_state,
}
use aifluxon.Core.Message.{SessionId}
use aifluxon.Prelude.{◌==◌, if◌then◌else◌, ℕ, ◌≡◌, ◌&&◌, none, some, List, [], ◌∷◌, arith, ok}

module _ {V : Type 0} where
  lookup_pair-remove_pair :
      (i p j q : ℕ) (m : List ((SessionId × ℕ) × ProviderStateRecord V))
      → lookup_pair j q (remove_pair i p m) ≡ (if i == j && p == q then none else lookup_pair j q m)
  unfolding lookup_pair remove_pair
  lookup_pair-remove_pair i p j q [] = ground arith
  lookup_pair-remove_pair i p j q (((s, t), r) ∷ m) =
      ground (arith, lookup_pair-remove_pair i p j q m)

  -- A saved provider state is what its session and provider load, and no other pair loads anything
  -- else than before.
  pub load_state-save_state :
      (s t : ProviderStateStore V) (r : ProviderStateRecord V) (session provider : ℕ)
      → save_state r s ≡ ok t
      → load_state session provider t ≡ (
          if r.session_id == session && r.provider_id == provider
          then ok (some r)
          else load_state session provider s)
  unfolding load_state save_state lookup_pair
  load_state-save_state s t r session provider e =
      ground (arith, lookup_pair-remove_pair r.session_id r.provider_id session provider s.records)

  -- Deleting a provider state takes away that pair's and nothing else.
  pub load_state-delete_state :
      (s t : ProviderStateStore V) (i p session provider : ℕ)
      → delete_state i p s ≡ ok t
      → load_state session provider t
        ≡ (if i == session && p == provider then ok none else load_state session provider s)
  unfolding load_state delete_state
  load_state-delete_state s t i p session provider e =
      ground (arith, lookup_pair-remove_pair i p session provider s.records)
