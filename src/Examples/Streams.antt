-- ===== src/Examples/Streams.antt =====
-- Streamed text, continuations and skills.
use aifluxon.Deltas.{TextDeltaReconciler, complete}
use aifluxon.Deltas.Exact.{pushes, completes, feed_all, feed_all-emitted, complete-emitted}
use aifluxon.Deltas.Snapshots.{push_snapshots, push_snapshots-latest}
use aifluxon.Core.Provider.{ContinuationReason, default_limit}
use aifluxon.Continuation.{for_limits}
use aifluxon.Continuation.Limits.{Event, begins, granted, allowance, granted-le}
use aifluxon.Skills.{
  SkillManifest, SkillContribution, SkillRegistry, register, resolve, merge_active,
}
use aifluxon.Skills.Registry.{registers, activates, call_all, Inv, active-Inv}
use aifluxon.Skills.Merge.{contributes, Distinct, merge_active-exact}
use aifluxon.Core.Run.{RunLimits, is_unlimited}
use aifluxon.Prelude.IdSet.{contains}
use aifluxon.Prelude.{any, ◌+◌, ◌≤◌, ◌≡◌, refl, true, false, none, some, List, [], ◌∷◌}
use aifluxon.Skills

abbrev half : TextDeltaReconciler
half = record { emitted = 104 ∷ 105 ∷ []; cumulative_detected = false }

feed_all-emitted_example :
    (feed_all half (pushes (33 ∷ []) false true ∷ completes (104 ∷ []) ∷ [])).1.emitted
    ≡ 104 ∷ 105 ∷ (feed_all half (pushes (33 ∷ []) false true ∷ completes (104 ∷ []) ∷ [])).0
feed_all-emitted_example =
    feed_all-emitted half (pushes (33 ∷ []) false true ∷ completes (104 ∷ []) ∷ [])

complete-emitted_example : (complete (104 ∷ 105 ∷ 33 ∷ []) half).1.emitted ≡ 104 ∷ 105 ∷ 33 ∷ []
unfolding complete
complete-emitted_example =
    complete-emitted (104 ∷ 105 ∷ 33 ∷ []) half (some (33 ∷ [])) refl (λ e. cc)

push_snapshots-latest_example :
    (push_snapshots half ((104 ∷ 105 ∷ 33 ∷ []) ∷ (104 ∷ 105 ∷ 33 ∷ 34 ∷ []) ∷ [])).emitted
    ≡ 104 ∷ 105 ∷ 33 ∷ 34 ∷ []
push_snapshots-latest_example =
    push_snapshots-latest half ((104 ∷ 105 ∷ 33 ∷ []) ∷ (104 ∷ 105 ∷ 33 ∷ 34 ∷ []) ∷ [])
      (((33 ∷ []), refl), (((34 ∷ []), refl), tt))

abbrev few : RunLimits
few = record { max_model_rounds = 3; max_tool_invocations = 3 }

abbrev three : List Event
three =
    begins ContinuationReason.summary_only
    ∷ begins ContinuationReason.summary_only
    ∷ begins ContinuationReason.summary_only
    ∷ []

granted-le_example :
    granted ContinuationReason.summary_only (for_limits few) three
    ≤ default_limit ContinuationReason.summary_only
      + allowance ContinuationReason.summary_only three
unfolding is_unlimited
granted-le_example = granted-le few ContinuationReason.summary_only three refl

abbrev analysis : SkillManifest
analysis = record { id = 1; name = "analysis"; version = none }

abbrev evidence : SkillContribution
evidence = record { instructions = 5 ∷ 5 ∷ []; tools = 6 ∷ []; required_capabilities = [] }

abbrev known_skill : SkillRegistry
known_skill = record {
  skills = (1, record { manifest = analysis; contribution = evidence }) ∷ [];
  active = [];
}

active-Inv_example : Inv (call_all Skills.new (registers analysis evidence ∷ activates 1 ∷ []))
active-Inv_example = active-Inv (registers analysis evidence ∷ activates 1 ∷ [])

abbrev active_skill : SkillRegistry
active_skill = record known_skill { active = 1 ∷ [] }

merge_active-exact_example :
    ((Skills.merge_active active_skill).active_skills ≡ 1 ∷ [])
    × (contains 5 (Skills.merge_active active_skill).instructions
        ≡ any (contributes (λ c. c.instructions) active_skill 5) (1 ∷ []))
    × (contains 5 (Skills.merge_active active_skill).tools
        ≡ any (contributes (λ c. c.tools) active_skill 5) (1 ∷ []))
    × (contains 5 (Skills.merge_active active_skill).required_capabilities
        ≡ any (contributes (λ c. c.required_capabilities) active_skill 5) (1 ∷ []))
    × Distinct (Skills.merge_active active_skill).instructions
    × Distinct (Skills.merge_active active_skill).tools
    × Distinct (Skills.merge_active active_skill).required_capabilities
merge_active-exact_example = merge_active-exact active_skill 5
