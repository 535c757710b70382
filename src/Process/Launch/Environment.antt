-- ===== src/Process/Launch/Environment.antt =====
-- The environment that `launch_child` of src/process.rs gives a child.
use mesh_supervisor.Prelude.{
  if◌then◌else◌, ◌==◌, string_eq, String, ◌≡◌, refl, ap, ◌∙◌, Option, none, some, List, [], ◌∷◌,
}
use mesh_supervisor.Map.{Map, lookup, insert}
use mesh_supervisor.Map.Laws.{lookup-insert}
use mesh_supervisor.Process.Launch.{set_all, child_env, default_path}

-- The value that a list of settings leaves at a variable: that of the last pair for it.
abbrev pub last_setting : String → List (String × String) → Option String → Option String
last_setting k [] before = before
last_setting k ((j, v) ∷ rest) before = last_setting k rest (if j == k then some v else before)

lookup-set_all :
    (k : String) (env : List (String × String)) (m : Map String String)
    → lookup k (set_all env m) ≡ last_setting k env (lookup k m)
unfolding set_all
lookup-set_all k [] m = refl
lookup-set_all k ((j, v) ∷ rest) m =
    lookup-set_all k rest (insert j v m) ∙ ap (last_setting k rest) (lookup-insert j k v m)

-- A child sees the client's variables, the last setting of each, and the default PATH unless the
-- client sets one; no variable comes from the supervisor.
pub child_env-scrubbed :
    (env : List (String × String)) (k : String)
    → lookup k (child_env env)
      ≡ last_setting k env (if "PATH" == k then some default_path else none)
unfolding child_env lookup insert
child_env-scrubbed env k = lookup-set_all k env (insert "PATH" default_path [])
