-- ===== src/Skills/Registry.antt =====
-- Histories of a registry of skills.
use aifluxon.Skills
use aifluxon.Skills.{
  SkillManifest, SkillContribution, RegisteredSkill, SkillRegistry, SkillRegistryError, register,
  activate, resolve, push_new, duplicate, new,
}
use aifluxon.Skills.Merge.{Distinct, push_new-Distinct, contains-push_new}
use aifluxon.Prelude.Map.{lookup, lookup-insert}
use aifluxon.Prelude.IdSet.{contains}
use aifluxon.Prelude.{
  ==_iff, Bool-cases, is_some, Result, ℕ, ◌≡◌, subst, inl, inr, true, some, List, [], ◌∷◌, arith,
  ok, err,
}

pub data Call : Type 0 where
  registers : SkillManifest → SkillContribution → Call
  activates : ℕ → Call

abbrev settle : SkillRegistry → Result SkillRegistryError SkillRegistry → SkillRegistry
settle r (ok t) = t
settle r (err e) = r

unfoldable pub call : SkillRegistry → Call → SkillRegistry
call r (registers manifest contribution) = settle r (register manifest contribution r)
call r (activates id) = settle r (activate id r)

unfoldable pub call_all : SkillRegistry → List Call → SkillRegistry
unfolding call
call_all r [] = r
call_all r (c ∷ cs) = call_all (call r c) cs

call-resolve :
    (r : SkillRegistry) (c : Call) (id : ℕ) (skill : RegisteredSkill)
    → resolve id r ≡ some skill
    → resolve id (call r c) ≡ some skill
unfolding call register activate resolve
call-resolve r (registers m b) id skill h =
    ground (arith, lookup-insert m.id id (record { manifest = m; contribution = b }) r.skills)
call-resolve r (activates other) id skill h = ground arith

pub call_all-resolve :
    (r : SkillRegistry) (cs : List Call) (id : ℕ) (skill : RegisteredSkill)
    → resolve id r ≡ some skill
    → resolve id (call_all r cs) ≡ some skill
unfolding call_all
call_all-resolve r [] id skill h = h
call_all-resolve r (c ∷ cs) id skill h =
    call_all-resolve (call r c) cs id skill (call-resolve r c id skill h)

-- After a skill was registered, every history resolves its identifier to what was registered then.
pub resolve-register :
    (r t : SkillRegistry) (m : SkillManifest) (b : SkillContribution) (cs : List Call)
    → register m b r ≡ ok t
    → resolve m.id (call_all t cs) ≡ some (record { manifest = m; contribution = b })
unfolding register resolve
resolve-register r t m b cs e =
    call_all-resolve t cs m.id (record { manifest = m; contribution = b })
      (ground (arith, lookup-insert m.id m.id (record { manifest = m; contribution = b }) r.skills))

-- The active skills are registered, and none is active twice.
pub record Inv (r : SkillRegistry) : Type 0 where
  pub known : (id : ℕ) → contains id r.active ≡ true → is_some (lookup id r.skills) ≡ true
  pub once : Distinct r.active

call-Inv : (r : SkillRegistry) (c : Call) → Inv r → Inv (call r c)
unfolding call register activate
call-Inv r (registers m b) v = record {
  known = λ id h. ground (
    arith,
    v.known id,
    lookup-insert m.id id (record { manifest = m; contribution = b }) r.skills,
  );
  once = subst Distinct (ground arith) v.once;
}
call-Inv r (activates other) v = elim (Bool-cases (is_some (lookup other r.skills))) [
  | inl there ↦ rw there (record {
    known =
        λ id h. ground (arith, v.known id, contains-push_new id other r.active, ==_iff other id);
    once = push_new-Distinct other r.active v.once;
  })
  | inr apart ↦ rw apart v
]

call_all-Inv : (r : SkillRegistry) (cs : List Call) → Inv r → Inv (call_all r cs)
unfolding call_all
call_all-Inv r [] v = v
call_all-Inv r (c ∷ cs) v = call_all-Inv (call r c) cs (call-Inv r c v)

-- After any history of a new registry, every active skill is registered, and none is active twice.
pub active-Inv : (cs : List Call) → Inv (call_all Skills.new cs)
unfolding Skills.new contains
active-Inv cs = call_all-Inv Skills.new cs (record { known = λ id h. cc; once = tt })
