-- ===== src/Examples/Texts.antt =====
-- Theorems about sizes on the command line and a child's sandbox at concrete inputs.
use mesh_supervisor.Prelude.{nat_eq, ok, ◌≡◌, refl, true, none, some, [], ◌∷◌, arith}
use mesh_supervisor.Sandbox.Formatting.{format_into_whole}
use mesh_supervisor.Cli.Sizes.{parse_size_unit, upper_m}
use mesh_supervisor.Sandbox.{apply, unshare, format_into, Kernel, Sandbox}
use mesh_supervisor.Text.{to_string, text, to_digits}
use mesh_supervisor.Cli.{parse_size}
use mesh_supervisor.Sandbox.Order.{apply_lem, plan, Follows}

parse_size_unit_example : parse_size (text " 256M ") ≡ ok 268435456
unfolding to_digits
parse_size_unit_example =
    parse_size_unit (text " ") (text " ") 256 b'M' 1048576 (refl, tt) (refl, tt) (omega arith)
      upper_m

abbrev jail : Sandbox
jail = record {
  memory = some 65536;
  cpu = none;
  cgroup_procs = true;
  isolate = true;
  store_dir = some (text "/var/lib/mesh");
}

-- A kernel that refuses to unshare with EPERM.
abbrev pub no_namespaces : Kernel
no_namespaces unshare = some 1
no_namespaces _ = none

apply_lem_example :
    Follows no_namespaces (plan jail 41 1000 1000) (apply jail 41 1000 1000 no_namespaces)
apply_lem_example = apply_lem jail 41 1000 1000 no_namespaces (omega arith) (omega arith)

format_into_whole_example :
    format_into [] (text "0 " ∷ to_string 4294967295 ∷ text " 1" ∷ text "\n" ∷ [])
    ≡ text "0 4294967295 1\n"
unfolding to_digits
format_into_whole_example = format_into_whole 4294967295 (omega arith)
