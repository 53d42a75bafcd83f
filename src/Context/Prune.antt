-- ===== src/Context/Prune.antt =====
-- What pruning keeps.
use mathlib.Core.Option
use aifluxon.Context.{Json, is_system}
use aifluxon.Context.Cutting.{Cutting}
use aifluxon.Prelude.{
  All, ◌⊎◌, if◌then◌else◌, length, ℕ, ◌<◌, ◌+◌, ◌≤◌, ◌≡◌, true, false, List, [], ◌∷◌, ◌++◌, some,
}

module _ {V : Type 0} (json : Json V) where
  abbrev pub IsSystem : V → Type 0
  IsSystem m = is_system json m ≡ true

  abbrev pub BeginsOther : List V → Type 0
  BeginsOther [] = Unit
  BeginsOther (m ∷ ms) = is_system json m ≡ false

  -- What becomes of the messages: as they are, where they fit or all are system messages; or the
  -- leading system messages, and what is kept of the last messages that fit behind those, one at
  -- least.
  pub data Pruned (ms : List V) (max_messages : ℕ) : List V → Type 0 where
    fits : length ms ≤ max_messages → Pruned ms max_messages ms
    systems : All IsSystem ms → Pruned ms max_messages ms
    shortened :
        (prefix before window kept : List V)
        → max_messages < length ms
        → ms ≡ prefix ++ (before ++ window)
        → All IsSystem prefix
        → BeginsOther (before ++ window)
        → ((length prefix < max_messages) × (length prefix + length window ≡ max_messages))
          ⊎ ((max_messages ≤ length prefix) × (length window ≡ 1))
        → Cutting json before window kept
        → Pruned ms max_messages (prefix ++ kept)

  lead : List V → List V
  lead [] = []
  lead (m ∷ ms) = let more = lead ms in if is_system json m then m ∷ more else []

  Out : List V → ℕ → Option.Option (List V) → Type 0
  Out ms max_messages o = (out : List V) × (o ≡ some out) × Pruned ms max_messages out
