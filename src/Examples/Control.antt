-- ===== src/Examples/Control.antt =====
-- The theorems on `accept` of src/supervisor.rs.
use mesh_supervisor.Prelude.{nat_eq, refl, true, false, none, some, [], ◌∷◌}
use mesh_supervisor.Config.{default_supervisor}
use mesh_supervisor.Examples.Data.{three, mem_disk, started}
use mesh_supervisor.Supervisor.Access.{accept-unprivileged, IsUnprivileged, IsInert}
use mesh_supervisor.Supervisor.{received, accept, contains, Authz, Host, Supervisor}
use mesh_supervisor.Proto.{stop}

-- Peer 7 has control rights, peer 8 may read.
abbrev pub rights : Authz
rights = record { is_open = false; control = 7 ∷ []; read = 8 ∷ [] }

abbrev pub server : Supervisor mem_disk
server = record {
  procs = three;
  pipes = 702 ∷ [];
  authz = rights;
  limiter = [];
  cfg = default_supervisor;
}

abbrev pub host : Host
host = record {
  usage = λ h. none;
  launch = some started;
  valid_signal = record { is_valid = λ s. true; invalid_message = λ s. "invalid signal" };
  delivered = true;
  copied = true;
}

reader : IsUnprivileged rights 8
unfolding contains
reader = (refl, refl)

accept-unprivileged_example :
    IsInert (accept mem_disk server host 8 1000 (received (stop 2))) server
accept-unprivileged_example =
    accept-unprivileged mem_disk server host 8 1000 (received (stop 2)) reader
