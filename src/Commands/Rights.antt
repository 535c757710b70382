-- ===== src/Commands/Rights.antt =====
-- From the flags of `supervise` in src/commands.rs to the decision in src/supervisor.rs.
use mesh_supervisor.Prelude.{
  if◌then◌else◌, nat_eq, ok, err, ◌≡◌, refl, Bool, ◌&&◌, ◌||◌, some, List, arith,
}
use mesh_supervisor.Supervisor.Access.{authorize_lem}
use mesh_supervisor.Supervisor.{contains, authorize, Authz}
use mesh_supervisor.Proto.{denied, is_read_only, Request, EndpointId}
use mesh_supervisor.Commands.{authz_from_matches}

-- The rights that a started supervisor grants, by its flags: `--open` and `--allow` admit every
-- request, `--allow-read` what is read-only, and all else is denied.
pub authz_from_matches_grants :
    (is_open : Bool) (control read : List EndpointId) (a : Authz) (remote : EndpointId)
    (req : Request)
    → authz_from_matches is_open control read ≡ some a
    → authorize a remote req ≡ (
        if is_open || contains control remote || (is_read_only req && contains read remote)
        then ok tt
        else err denied)
unfolding authz_from_matches
authz_from_matches_grants is_open control read a remote req e =
    let same : a ≡ record { is_open = is_open; control = control; read = read } = ground arith in
    rw (same, authorize_lem) refl
