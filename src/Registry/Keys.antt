-- ===== src/Registry/Keys.antt =====
-- The names under which the registry lists its skills.
use logos_pilot.Prelude.{◌≡◌, refl, false, List, [], ◌∷◌, arith, if◌then◌else◌, Option, some, none}
use logos_pilot.Prelude.Lists.{All}
use logos_pilot.Text.{Text, same}
use logos_pilot.Registry.Skills.{Skill, Registry, assign, register_skill}
use logos_pilot.Registry.Plugins.{
  PluginSkill, null_skill, throwing_skill, named_skill, PluginObject, no_instance, wrong_interface,
  throwing, plugin, PluginFile, register_new, register_all, load_object, load_files, load_listed,
  load_plugins,
}
use logos_pilot.Registry.Runs.{Change, registering, loading, run}

-- No entry has this name.
abbrev pub IsFree : Text → Registry → Type 0
IsFree n = All (λ r. same r.id n ≡ false)

-- Every skill is listed under its own name, and no name is listed twice.
abbrev pub IsListed : Registry → Type 0
IsListed [] = Unit
IsListed (r ∷ rs) = (r.id ≡ r.skill.name) × IsFree r.id rs × IsListed rs

assign-IsFree :
    (n m : Text) (s : Skill) (reg : Registry)
    → same n m ≡ false
    → IsFree m reg
    → IsFree m (assign n s reg)
unfolding assign
assign-IsFree n m s [] d h = (d, tt)
assign-IsFree n m s (r ∷ rs) d (h, hs) = ground (arith, assign-IsFree n m s rs d hs)

assign-IsListed : (s : Skill) (reg : Registry) → IsListed reg → IsListed (assign s.name s reg)
unfolding assign
assign-IsListed s [] h = (refl, tt, tt)
assign-IsListed s (r ∷ rs) (e, f, h) =
    ground (arith, assign-IsListed s rs h, assign-IsFree s.name r.id s rs)

register_new-IsListed : (s : Skill) (reg : Registry) → IsListed reg → IsListed (register_new s reg)
unfolding register_new register_skill
register_new-IsListed s reg h = ground (arith, assign-IsListed s reg h)

register_all-IsListed :
    (ss : List PluginSkill) (reg : Registry) → IsListed reg → IsListed (register_all ss reg)
unfolding register_all
register_all-IsListed [] reg h = h
register_all-IsListed (null_skill ∷ ss) reg h = register_all-IsListed ss reg h
register_all-IsListed (throwing_skill ∷ ss) reg h = h
register_all-IsListed (named_skill s ∷ ss) reg h =
    register_all-IsListed ss (register_new s reg) (register_new-IsListed s reg h)

load_object-IsListed :
    (o : PluginObject) (reg : Registry) → IsListed reg → IsListed (load_object o reg)
unfolding load_object
load_object-IsListed no_instance reg h = h
load_object-IsListed wrong_interface reg h = h
load_object-IsListed throwing reg h = h
load_object-IsListed (plugin abi skills) reg h = ground (arith, register_all-IsListed skills reg h)

load_files-IsListed :
    (fs : List PluginFile) (reg : Registry) → IsListed reg → IsListed (load_files fs reg)
unfolding load_files
load_files-IsListed [] reg h = h
load_files-IsListed (f ∷ fs) reg h =
    load_files-IsListed fs (if f.is_library then load_object f.root reg else reg)
      (ground (arith, load_object-IsListed f.root reg h))

load_plugins-IsListed :
    (env : Option Text) (directory : Option (List PluginFile)) (reg : Registry)
    → IsListed reg
    → IsListed (load_plugins env directory reg)
unfolding load_plugins load_listed
load_plugins-IsListed env none reg h = ground arith
load_plugins-IsListed env (some fs) reg h = ground (arith, load_files-IsListed fs reg h)

-- From a registry in which every skill is listed under its own name and no name twice, any
-- registrations and plugin loads lead to such a registry.
pub run-IsListed : (cs : List Change) (reg : Registry) → IsListed reg → IsListed (run cs reg)
unfolding run register_skill
run-IsListed [] reg h = h
run-IsListed (registering s ∷ cs) reg h =
    run-IsListed cs (assign s.name s reg) (assign-IsListed s reg h)
run-IsListed (loading env directory ∷ cs) reg h =
    run-IsListed cs (load_plugins env directory reg) (load_plugins-IsListed env directory reg h)
