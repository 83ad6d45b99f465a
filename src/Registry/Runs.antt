-- ===== src/Registry/Runs.antt =====
-- The registry as a function from names to skills: registrations and plugin loads, in any order.
use logos_pilot.Prelude.{
  ◌≡◌, refl, ◌∙◌, Option, none, some, List, [], ◌∷◌, ◌++◌, arith, ◌==◌, if◌then◌else◌,
}
use logos_pilot.Text.{Text, same}
use logos_pilot.Registry.Skills.{Skill, Registry, assign, register_skill, find_skill, has_skill}
use logos_pilot.Registry.Plugins.{
  PluginSkill, null_skill, throwing_skill, named_skill, PluginObject, no_instance, wrong_interface,
  throwing, plugin, PluginFile, plugins_enabled, register_new, register_all, load_object,
  load_files, load_listed, load_plugins,
}

-- What a client can observe of a registry.
abbrev pub View : Type 0
View = Text → Option Skill

abbrev pub or_first : Option Skill → Option Skill → Option Skill
or_first (some s) o = some s
or_first none o = o

abbrev pub first_named : Text → List Skill → Option Skill
first_named k [] = none
first_named k (s ∷ ss) = if same s.name k then some s else first_named k ss

-- The skills that the plugins of a directory offer, in their order.
abbrev pub offered_skills : List PluginSkill → List Skill
offered_skills [] = []
offered_skills (null_skill ∷ ss) = offered_skills ss
offered_skills (throwing_skill ∷ ss) = []
offered_skills (named_skill s ∷ ss) = s ∷ offered_skills ss

abbrev pub offered_object : PluginObject → List Skill
offered_object no_instance = []
offered_object wrong_interface = []
offered_object throwing = []
offered_object (plugin abi skills) = if abi == 1 then offered_skills skills else []

abbrev pub offered_files : List PluginFile → List Skill
offered_files [] = []
offered_files (f ∷ fs) = (if f.is_library then offered_object f.root else []) ++ offered_files fs

abbrev pub offered : Option Text → Option (List PluginFile) → List Skill
offered env none = []
offered env (some fs) = if plugins_enabled env then offered_files fs else []

-- A call that changes the registry.
pub data Change : Type 0 where
  registering : Skill → Change
  loading : Option Text → Option (List PluginFile) → Change

unfoldable pub run : List Change → Registry → Registry
run [] reg = reg
run (registering s ∷ cs) reg = run cs (register_skill s reg)
run (loading env directory ∷ cs) reg = run cs (load_plugins env directory reg)

-- The same calls on a function: a registration binds its name, and a load binds the names that are
-- free to the first skill offered under them.
pub replay : List Change → View → View
replay [] f = f
replay (registering s ∷ cs) f = replay cs (λ k. if same s.name k then some s else f k)
replay (loading env directory ∷ cs) f =
    replay cs (λ k. or_first (f k) (first_named k (offered env directory)))

find_skill-assign :
    (n k : Text) (s : Skill) (reg : Registry)
    → find_skill k (assign n s reg) ≡ (if same n k then some s else find_skill k reg)
unfolding find_skill assign
find_skill-assign n k s [] = refl
find_skill-assign n k s (r ∷ rs) = ground (arith, find_skill-assign n k s rs)

find_skill-register_new :
    (k : Text) (s : Skill) (reg : Registry)
    → find_skill k (register_new s reg)
      ≡ or_first (find_skill k reg) (if same s.name k then some s else none)
unfolding register_new has_skill register_skill
find_skill-register_new k s reg = ground (arith, find_skill-assign s.name k s reg)

or_first_assoc : (a b c : Option Skill) → or_first (or_first a b) c ≡ or_first a (or_first b c)
or_first_assoc a b c = ground arith

first_named-append :
    (k : Text) (xs ys : List Skill)
    → first_named k (xs ++ ys) ≡ or_first (first_named k xs) (first_named k ys)
first_named-append k [] ys = refl
first_named-append k (x ∷ xs) ys = ground (arith, first_named-append k xs ys)

find_skill-register_all :
    (k : Text) (ss : List PluginSkill) (reg : Registry)
    → find_skill k (register_all ss reg)
      ≡ or_first (find_skill k reg) (first_named k (offered_skills ss))
unfolding register_all
find_skill-register_all k [] reg = ground arith
find_skill-register_all k (null_skill ∷ ss) reg = find_skill-register_all k ss reg
find_skill-register_all k (throwing_skill ∷ ss) reg = ground arith
find_skill-register_all k (named_skill s ∷ ss) reg =
    ground
      (arith, find_skill-register_all k ss (register_new s reg), find_skill-register_new k s reg)

find_skill-load_object :
    (k : Text) (o : PluginObject) (reg : Registry)
    → find_skill k (load_object o reg)
      ≡ or_first (find_skill k reg) (first_named k (offered_object o))
unfolding load_object
find_skill-load_object k no_instance reg = ground arith
find_skill-load_object k wrong_interface reg = ground arith
find_skill-load_object k throwing reg = ground arith
find_skill-load_object k (plugin abi skills) reg =
    ground (arith, find_skill-register_all k skills reg)

find_skill-load_files :
    (k : Text) (fs : List PluginFile) (reg : Registry)
    → find_skill k (load_files fs reg)
      ≡ or_first (find_skill k reg) (first_named k (offered_files fs))
unfolding load_files
find_skill-load_files k [] reg = ground arith
find_skill-load_files k (f ∷ fs) reg =
    let reg' = if f.is_library then load_object f.root reg else reg in
    ground (
      arith,
      find_skill-load_files k fs reg',
      find_skill-load_object k f.root reg,
      first_named-append k (if f.is_library then offered_object f.root else []) (offered_files fs),
    )

find_skill-load_plugins :
    (k : Text) (env : Option Text) (directory : Option (List PluginFile)) (reg : Registry)
    → find_skill k (load_plugins env directory reg)
      ≡ or_first (find_skill k reg) (first_named k (offered env directory))
unfolding load_plugins load_listed
find_skill-load_plugins k env none reg = ground arith
find_skill-load_plugins k env (some fs) reg = ground (arith, find_skill-load_files k fs reg)

replay-ext :
    (cs : List Change) (f g : View)
    → ((k : Text) → f k ≡ g k)
    → (k : Text) → replay cs f k ≡ replay cs g k
unfolding replay
replay-ext [] f g h k = h k
replay-ext (registering s ∷ cs) f g h k = replay-ext cs _ _ (λ j. ground (arith, h j)) k
replay-ext (loading env directory ∷ cs) f g h k = replay-ext cs _ _ (λ j. ground (arith, h j)) k

-- After any registrations and loads a name is bound to what the replay of the same calls on a
-- function from names gives. There a registration replaces, and a load binds only free names, each
-- to the first skill that a library with the expected interface and ABI version offers, and none
-- unless plugins are enabled.
pub run-replay :
    (cs : List Change) (reg : Registry) (k : Text)
    → find_skill k (run cs reg) ≡ replay cs (λ n. find_skill n reg) k
unfolding run replay register_skill
run-replay [] reg k = refl
run-replay (registering s ∷ cs) reg k =
    run-replay cs (assign s.name s reg) k
    ∙ replay-ext cs _ _ (λ n. find_skill-assign s.name n s reg) k
run-replay (loading env directory ∷ cs) reg k =
    run-replay cs (load_plugins env directory reg) k
    ∙ replay-ext cs _ _ (λ n. find_skill-load_plugins n env directory reg) k
