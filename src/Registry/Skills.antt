-- ===== src/Registry/Skills.antt =====
-- SkillRegistry (pilot-module/src/pilot_skill_registry.cpp) without its plugin loader.
use logos_pilot.Prelude.{
  ℕ, Bool, true, false, Option, none, some, List, [], ◌∷◌, ◌++◌, ◌==◌, length, if◌then◌else◌,
}
use logos_pilot.Prelude.Int.{ℤ}
use logos_pilot.Text.{Text, codes, same}

-- What executing a skill does: it returns a text, throws a std::exception with its what(), or throws
-- something else.
pub data Outcome : Type 0 where
  returned : Text → Outcome
  threw : Text → Outcome
  threw_unknown : Outcome

-- A PilotSkill.
pub record Skill : Type 0 where
  pub name : Text
  pub category : Text
  pub description : Text
  pub price_lez : ℤ
  pub execute : Text → Outcome

-- An entry of `skills_`, a std::unordered_map by name. Where the code walks over it, the order is
-- not specified: the model has the order of first registration.
pub record Registered : Type 0 where
  pub id : Text
  pub skill : Skill

abbrev pub Registry : Type 0
Registry = List Registered

-- `skills_[n] = …`
unfoldable pub assign : Text → Skill → Registry → Registry
assign n s [] = record { id = n; skill = s } ∷ []
assign n s (r ∷ rs) = if same r.id n then record { id = n; skill = s } ∷ rs else r ∷ assign n s rs

unfoldable pub register_skill : Skill → Registry → Registry
unfolding assign
register_skill s reg = assign s.name s reg

-- `skills_.find(name)`
unfoldable pub find_skill : Text → Registry → Option Skill
find_skill n [] = none
find_skill n (r ∷ rs) = if same r.id n then some r.skill else find_skill n rs

abbrev pub is_some : Option Skill → Bool
is_some none = false
is_some (some s) = true

unfoldable pub has_skill : Text → Registry → Bool
unfolding find_skill
has_skill n reg = is_some (find_skill n reg)

unfoldable pub count : Registry → ℕ
count reg = length reg

-- What a dispatch answers: the text of the skill, or a JSON object whose `error` is this text.
pub data Answer : Type 0 where
  output : Text → Answer
  error : Text → Answer

unfoldable pub answer_of : Text → Outcome → Answer
answer_of name (returned text) = output text
answer_of name (threw what) = error (codes "skill '" ++ (name ++ (codes "' failed: " ++ what)))
answer_of name threw_unknown =
    error (codes "skill '" ++ (name ++ codes "' failed with an unknown error"))

unfoldable pub dispatch_to : Text → Text → Option Skill → Answer
unfolding answer_of
dispatch_to name args none = error (codes "unknown skill: " ++ name)
dispatch_to name args (some s) = answer_of name (s.execute args)

unfoldable pub dispatch : Registry → Text → Text → Answer
unfolding find_skill dispatch_to
dispatch reg name args = dispatch_to name args (find_skill name reg)

-- An entry of `skills` in listSkills.
pub record SkillRow : Type 0 where
  pub name : Text
  pub category : Text
  pub description : Text
  pub price_lez : ℤ

unfoldable pub skill_rows : Registry → List SkillRow
skill_rows [] = []
skill_rows (r ∷ rs) =
    record {
      name = r.skill.name;
      category = r.skill.category;
      description = r.skill.description;
      price_lez = r.skill.price_lez;
    }
    ∷ skill_rows rs

-- The array and the count of listSkills.
unfoldable pub list_skills : Registry → List SkillRow × ℕ
unfolding skill_rows
list_skills reg = (skill_rows reg, length reg)

-- An entry of the card's skill list; both mode lists are application/json.
pub record CardRow : Type 0 where
  pub id : Text
  pub name : Text
  pub description : Text

unfoldable pub dashed : Text → Text
dashed [] = []
dashed (c ∷ s) = (if c == b'.' then b'-' else c) ∷ dashed s

unfoldable pub list_skills_for_card : Registry → List CardRow
unfolding dashed
list_skills_for_card [] = []
list_skills_for_card (r ∷ rs) =
    record { id = dashed r.id; name = r.skill.name; description = r.skill.description }
    ∷ list_skills_for_card rs
