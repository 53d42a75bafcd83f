-- ===== src/Skills.antt =====
-- crates/aifluxon-runtime/src/skills.rs: the registry of skills and what the active ones contribute.
-- Identifiers, instructions, tool names and capabilities are compared only for equality and are
-- numbers. Each HashSet of `merge_active` holds what its list holds.
pub mod Merge
pub mod Registry
use Prim.Native.String.{String}
use aifluxon.Prelude.Map.{Map, lookup, insert}
use aifluxon.Prelude.IdSet.{contains}
use aifluxon.Prelude.{
  if◌then◌else◌, is_some, Result, guard, ℕ, not, Option, none, some, List, [], ◌∷◌, ◌++◌, ok, ◌>>◌,
  ◌>>=◌,
}

pub record SkillManifest : Type 0 where
  pub id : ℕ
  pub name : String
  pub version : Option String

pub record SkillContribution : Type 0 where
  pub instructions : List ℕ
  pub tools : List ℕ
  pub required_capabilities : List ℕ

pub record RegisteredSkill : Type 0 where
  pub manifest : SkillManifest
  pub contribution : SkillContribution

pub record MergedSkillContribution : Type 0 where
  pub active_skills : List ℕ
  pub instructions : List ℕ
  pub tools : List ℕ
  pub required_capabilities : List ℕ

pub data SkillRegistryError : Type 0 where
  duplicate unknown : ℕ → SkillRegistryError

pub record SkillRegistry : Type 0 where
  pub skills : Map RegisteredSkill
  pub active : List ℕ

unfoldable pub new : SkillRegistry
new = record { skills = []; active = [] }

unfoldable pub register :
    SkillManifest → SkillContribution → SkillRegistry → Result SkillRegistryError SkillRegistry
register manifest contribution r = do
  guard (not (is_some (lookup manifest.id r.skills))) (duplicate manifest.id)
  ok (record r {
    skills =
        insert manifest.id (record { manifest = manifest; contribution = contribution }) r.skills;
  })

unfoldable pub resolve : ℕ → SkillRegistry → Option RegisteredSkill
resolve id r = lookup id r.skills

-- if set.insert(x) { list.push(x) }, for the list of active skills too.
unfoldable pub push_new : ℕ → List ℕ → List ℕ
push_new x xs = if contains x xs then xs else xs ++ x ∷ []

unfoldable pub activate : ℕ → SkillRegistry → Result SkillRegistryError SkillRegistry
unfolding push_new
activate id r = do
  guard (is_some (lookup id r.skills)) (unknown id)
  ok (record r { active = push_new id r.active })

unfoldable pub push_all : List ℕ → List ℕ → List ℕ
unfolding push_new
push_all [] out = out
push_all (x ∷ xs) out = push_all xs (push_new x out)

-- One round of the loop of `merge_active`.
unfoldable pub merge_skill : SkillContribution → MergedSkillContribution → MergedSkillContribution
unfolding push_all
merge_skill c m = record m {
  instructions = push_all c.instructions m.instructions;
  tools = push_all c.tools m.tools;
  required_capabilities = push_all c.required_capabilities m.required_capabilities;
}

unfoldable pub merge_all :
    SkillRegistry → List ℕ → MergedSkillContribution → MergedSkillContribution
unfolding merge_skill
merge_all r [] m = m
merge_all r (id ∷ ids) m = elim (lookup id r.skills) [
  | none ↦ merge_all r ids m
  | some skill ↦ merge_all r ids (merge_skill skill.contribution m)
]

unfoldable pub merge_active : SkillRegistry → MergedSkillContribution
unfolding merge_all
merge_active r =
    merge_all r r.active (record {
      active_skills = r.active;
      instructions = [];
      tools = [];
      required_capabilities = [];
    })
