-- ===== src/Skills/Merge.antt =====
-- What the active skills contribute together.
use aifluxon.Skills.{
  SkillContribution, SkillRegistry, push_new, push_all, MergedSkillContribution, merge_all,
  merge_active, RegisteredSkill, merge_skill,
}
use aifluxon.Prelude.Map.{lookup}
use aifluxon.Prelude.IdSet.{contains, contains-++}
use aifluxon.Continuation.Limits.{after}
use aifluxon.Operations.Change.{fresh}
use aifluxon.Prelude.{
  ◌==◌, ==_iff, Bool-cases, Option-cases, any, ℕ, ◌≡◌, refl, inl, inr, Bool, false, ◌||◌, none,
  some, List, [], ◌∷◌, ◌++◌, arith,
}

-- No element stands twice.
abbrev pub Distinct : List ℕ → Type 0
Distinct [] = Unit
Distinct (x ∷ xs) = (contains x xs ≡ false) × Distinct xs

Distinct-append :
    (xs : List ℕ) (x : ℕ) → Distinct xs → contains x xs ≡ false → Distinct (xs ++ x ∷ [])
unfolding contains
Distinct-append [] x d h = (refl, tt)
Distinct-append (y ∷ ys) x d h =
    (ground (arith, d.0, contains-++ y ys (x ∷ [])), Distinct-append ys x d.1 (ground arith))

pub push_new-Distinct : (x : ℕ) (xs : List ℕ) → Distinct xs → Distinct (push_new x xs)
unfolding push_new
push_new-Distinct x xs d = elim (Bool-cases (contains x xs)) [
  | inl there ↦ rw there d
  | inr fresh ↦ rw fresh (Distinct-append xs x d fresh)
]

pub contains-push_new :
    (k x : ℕ) (xs : List ℕ) → contains k (push_new x xs) ≡ (contains k xs || x == k)
unfolding push_new contains
contains-push_new k x xs = elim (Bool-cases (contains x xs)) [
  | inl there ↦ elim (Bool-cases (x == k)) [
    | inl same ↦ ground (arith, (==_iff x k).0 same)
    | inr other ↦ ground arith
  ]
  | inr fresh ↦ ground (arith, contains-++ k xs (x ∷ []))
]

push_all-Distinct : (xs out : List ℕ) → Distinct out → Distinct (push_all xs out)
unfolding push_all
push_all-Distinct [] out d = d
push_all-Distinct (x ∷ xs) out d = push_all-Distinct xs (push_new x out) (push_new-Distinct x out d)

contains-push_all :
    (k : ℕ) (xs out : List ℕ) → contains k (push_all xs out) ≡ (contains k out || contains k xs)
unfolding push_all contains
contains-push_all k [] out = ground arith
contains-push_all k (x ∷ xs) out =
    ground (arith, contains-push_all k xs (push_new x out), contains-push_new k x out)

-- A registered skill contributes the element to the list that `field` selects.
abbrev pub contributes : (SkillContribution → List ℕ) → SkillRegistry → ℕ → ℕ → Bool
contributes field r k id = elim (lookup id r.skills) [
  | none ↦ false
  | some skill ↦ contains k (field skill.contribution)
]

-- A list of the merged contribution holds exactly what the skills of `ids` give it, and what it held.
record Collects (r : SkillRegistry) (ids : List ℕ) (field : SkillContribution → List ℕ)
    (before after : List ℕ) : Type 0 where
  exactly : (k : ℕ) → contains k after ≡ (contains k before || any (contributes field r k) ids)
  once : Distinct before → Distinct after

Collects-step :
    (r : SkillRegistry) (id : ℕ) (ids : List ℕ) (field : SkillContribution → List ℕ)
    (before after : List ℕ)
    → Collects r ids field
        (elim (lookup id r.skills) [
          | none ↦ before
          | some skill ↦ push_all (field skill.contribution) before
        ])
        after
    → Collects r (id ∷ ids) field before after
Collects-step r id ids field before after c = elim (Option-cases (lookup id r.skills)) [
  | inl apart ↦ record {
    exactly = λ k. ground (arith, apart, c.exactly k);
    once = λ d. c.once (rw apart d);
  }
  | inr (skill, found) ↦ record {
    exactly = λ k.
        ground (arith, found, c.exactly k, contains-push_all k (field skill.contribution) before);
    once = λ d. c.once (rw found (push_all-Distinct (field skill.contribution) before d));
  }
]

-- All three lists, and the active skills themselves.
record Merged (r : SkillRegistry) (ids : List ℕ) (m m' : MergedSkillContribution) : Type 0 where
  same : m'.active_skills ≡ m.active_skills
  by_instructions : Collects r ids (λ c. c.instructions) m.instructions m'.instructions
  by_tools : Collects r ids (λ c. c.tools) m.tools m'.tools
  by_capabilities :
      Collects r ids (λ c. c.required_capabilities) m.required_capabilities m'.required_capabilities

Collects-none :
    (r : SkillRegistry) (field : SkillContribution → List ℕ) (xs : List ℕ)
    → Collects r [] field xs xs
Collects-none r field xs = record { exactly = λ k. ground arith; once = λ d. d }

same_step :
    (r : SkillRegistry) (id : ℕ) (ids : List ℕ) (m m' : MergedSkillContribution)
    → lookup id r.skills ≡ none
    → Merged r ids m m'
    → Merged r (id ∷ ids) m m'
same_step r id ids m m' apart w = record {
  same = w.same;
  by_instructions =
      Collects-step r id ids (λ c. c.instructions) m.instructions m'.instructions
        (rw apart w.by_instructions);
  by_tools = Collects-step r id ids (λ c. c.tools) m.tools m'.tools (rw apart w.by_tools);
  by_capabilities =
      Collects-step r id ids (λ c. c.required_capabilities) m.required_capabilities
        m'.required_capabilities (rw apart w.by_capabilities);
}

skill_step :
    (r : SkillRegistry) (id : ℕ) (ids : List ℕ) (m m' : MergedSkillContribution)
    (skill : RegisteredSkill)
    → lookup id r.skills ≡ some skill
    → Merged r ids (merge_skill skill.contribution m) m'
    → Merged r (id ∷ ids) m m'
unfolding merge_skill
skill_step r id ids m m' skill found w = record {
  same = w.same;
  by_instructions =
      Collects-step r id ids (λ c. c.instructions) m.instructions m'.instructions
        (rw found w.by_instructions);
  by_tools = Collects-step r id ids (λ c. c.tools) m.tools m'.tools (rw found w.by_tools);
  by_capabilities =
      Collects-step r id ids (λ c. c.required_capabilities) m.required_capabilities
        m'.required_capabilities (rw found w.by_capabilities);
}

merge_all-Merged :
    (r : SkillRegistry) (ids : List ℕ) (m : MergedSkillContribution)
    → Merged r ids m (merge_all r ids m)
unfolding merge_all
merge_all-Merged r [] m = record {
  same = refl;
  by_instructions = Collects-none r (λ c. c.instructions) m.instructions;
  by_tools = Collects-none r (λ c. c.tools) m.tools;
  by_capabilities = Collects-none r (λ c. c.required_capabilities) m.required_capabilities;
}
merge_all-Merged r (id ∷ ids) m = elim (Option-cases (lookup id r.skills)) [
  | inl apart ↦
      let w = merge_all-Merged r ids m in
      rw (apart, merge_all) (same_step r id ids m (merge_all r ids m) apart w)
  | inr (skill, found) ↦
      let w = merge_all-Merged r ids (merge_skill skill.contribution m) in
      rw (found, merge_all)
        (skill_step r id ids m (merge_all r ids (merge_skill skill.contribution m)) skill found w)
]

-- The merged contribution names the active skills as they were activated, and each of its lists holds
-- exactly what some active skill contributes, without repetition.
pub merge_active-exact :
    (r : SkillRegistry) (k : ℕ)
    → ((merge_active r).active_skills ≡ r.active)
      × (contains k (merge_active r).instructions
          ≡ any (contributes (λ c. c.instructions) r k) r.active)
      × (contains k (merge_active r).tools ≡ any (contributes (λ c. c.tools) r k) r.active)
      × (contains k (merge_active r).required_capabilities
          ≡ any (contributes (λ c. c.required_capabilities) r k) r.active)
      × Distinct (merge_active r).instructions
      × Distinct (merge_active r).tools
      × Distinct (merge_active r).required_capabilities
unfolding merge_active contains
merge_active-exact r k =
    let w = merge_all-Merged r r.active (record {
      active_skills = r.active;
      instructions = [];
      tools = [];
      required_capabilities = [];
    }) in
    (
      w.same,
      w.by_instructions.exactly k,
      w.by_tools.exactly k,
      w.by_capabilities.exactly k,
      w.by_instructions.once tt,
      w.by_tools.once tt,
      w.by_capabilities.once tt,
    )
