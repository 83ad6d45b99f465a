-- ===== src/Registry/Plugins.antt =====
-- pluginsEnabled and SkillRegistry::loadPlugins (pilot-module/src/pilot_skill_registry.cpp). What the
-- directory and the libraries in it hold is a parameter.
use logos_pilot.Prelude.{
  ℕ, Bool, false, Option, none, some, List, [], ◌∷◌, ◌||◌, not, ◌==◌, if◌then◌else◌,
}
use logos_pilot.Text.{Text, codes, same}
use logos_pilot.Text.Search.{to_lower}
use logos_pilot.Text.Trim.{trim, is_blank}
use logos_pilot.Registry.Skills.{Skill, Registry, register_skill, has_skill}

unfoldable pub lower : Text → Text
unfolding to_lower
lower [] = []
lower (c ∷ s) = to_lower c ∷ lower s

abbrev pub is_truthy : Text → Bool
is_truthy s =
    same s (codes "1") || same s (codes "true") || same s (codes "yes") || same s (codes "on")

-- PILOT_ENABLE_PLUGINS, `none` where it is unset.
unfoldable pub plugins_enabled : Option Text → Bool
unfolding trim lower
plugins_enabled none = false
plugins_enabled (some v) = is_truthy (lower (trim is_blank v))

-- An entry of the vector that createSkills returns: a null pointer, a skill whose name() throws, or
-- one with a name.
pub data PluginSkill : Type 0 where
  null_skill throwing_skill : PluginSkill
  named_skill : Skill → PluginSkill

-- What loading one file gives: no instance, an object of another interface, a call of the plugin
-- that throws, or its ABI version with the skills that it creates.
pub data PluginObject : Type 0 where
  no_instance wrong_interface throwing : PluginObject
  plugin : ℕ → List PluginSkill → PluginObject

pub record PluginFile : Type 0 where
  pub is_library : Bool
  pub root : PluginObject

-- PILOT_PLUGIN_ABI_VERSION
abbrev pub plugin_abi_version : ℕ
plugin_abi_version = 1

unfoldable pub register_new : Skill → Registry → Registry
register_new s reg = if has_skill s.name reg then reg else register_skill s reg

-- The loop over the skills; an exception leaves it with what is registered so far.
unfoldable pub register_all : List PluginSkill → Registry → Registry
unfolding register_new
register_all [] reg = reg
register_all (null_skill ∷ ss) reg = register_all ss reg
register_all (throwing_skill ∷ ss) reg = reg
register_all (named_skill s ∷ ss) reg = register_all ss (register_new s reg)

unfoldable pub load_object : PluginObject → Registry → Registry
unfolding register_all
load_object no_instance reg = reg
load_object wrong_interface reg = reg
load_object throwing reg = reg
load_object (plugin abi skills) reg =
    if abi == plugin_abi_version then register_all skills reg else reg

unfoldable pub load_files : List PluginFile → Registry → Registry
unfolding load_object
load_files [] reg = reg
load_files (f ∷ fs) reg = load_files fs (if f.is_library then load_object f.root reg else reg)

-- The files of the directory in the order of their names, `none` where it does not exist.
unfoldable pub load_listed : Option (List PluginFile) → Registry → Registry
unfolding load_files
load_listed none reg = reg
load_listed (some fs) reg = load_files fs reg

unfoldable pub load_plugins : Option Text → Option (List PluginFile) → Registry → Registry
unfolding plugins_enabled load_listed
load_plugins env directory reg =
    if not (plugins_enabled env) then reg else load_listed directory reg
