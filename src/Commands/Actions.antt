-- ===== src/Commands/Actions.antt =====
-- What the runners of src/commands.rs do, with the arguments that they read.
use mesh_supervisor.Prelude.{String, Option, List}
use mesh_supervisor.Commands.Report.{Subcommand}
use mesh_supervisor.Commands.Startup.{SuperviseArgs}
use mesh_supervisor.Config.{ClientConfig}
use mesh_supervisor.Proto.{Handle, EndpointId}

-- The address that `dial_addr` builds, and the configuration of the call.
pub record Dial : Type 0 where
  pub target : EndpointId
  pub relay : Option String
  pub cfg : ClientConfig

pub record SuperviseRun : Type 0 where
  pub args : SuperviseArgs
  pub store_path : String
  pub relay : Option String
  pub topic_secret : Option String
  pub bootstrap : List EndpointId

pub record WatchRun : Type 0 where
  pub cfg : ClientConfig
  pub relay : Option String
  pub topic_secret : Option String
  pub bootstrap : List EndpointId

pub data Action : Type 0 where
  supervise : SuperviseRun → Action
  call : Dial → Subcommand → Action
  pipe_input : Dial → Handle → Action
  follow_output : Dial → Handle → Action
  watch_ticks : WatchRun → Action
  complete : String → Action
