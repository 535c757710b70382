-- ===== src/Proto.antt =====
-- src/proto.rs: the control protocol's types. `String` is a native text, `u32` and `u64` are natural
-- numbers, and `i32` is a signed number.
pub mod Frame
use mesh_supervisor.Prelude.{ℤ, ℕ, String, Bool, true, false, Option, List}

abbrev pub Handle : Type 0
Handle = ℕ

-- An `iroh::EndpointId`: the 32 bytes of a public key, read as a number.
abbrev pub EndpointId : Type 0
EndpointId = ℕ

pub record Limits : Type 0 where
  pub memory : Option ℕ
  pub pids : Option ℕ
  pub cpu : Option ℕ

pub data RestartPolicy : Type 0 where
  never on_failure always : RestartPolicy

pub record Spec : Type 0 where
  pub cmd : String
  pub args : List String
  pub env : List (String × String)
  pub limits : Limits
  pub policy : RestartPolicy
  pub max_retries : ℕ
  pub isolate : Bool

pub data Request : Type 0 where
  spawn : Spec → Request
  signal : Handle → ℤ → Request
  stop : Handle → Request
  stdin_stream : Handle → Request
  query : Handle → Request
  subscribe : Handle → Request
  forget : Handle → Request
  list : Request

unfoldable pub is_read_only : Request → Bool
is_read_only list = true
is_read_only (query id) = true
is_read_only (subscribe id) = true
is_read_only (spawn s) = false
is_read_only (signal id sig) = false
is_read_only (stop id) = false
is_read_only (stdin_stream id) = false
is_read_only (forget id) = false

pub data ProcState : Type 0 where
  running : ProcState
  exited : Option ℤ → ProcState
  stale : ProcState

-- `matches!(state, ProcState::Running)`
abbrev pub is_running : ProcState → Bool
is_running running = true
is_running (exited code) = false
is_running stale = false

-- `CONTROL_ALPN`
abbrev pub control_alpn : String
control_alpn = "/supervisor/control/1"

pub record Usage : Type 0 where
  pub mem_bytes : ℕ
  pub cpu_usec : ℕ

pub record ProcInfo : Type 0 where
  pub handle : Handle
  pub pid : ℕ
  pub state : ProcState
  pub usage : Option Usage
  pub restarts : ℕ

pub data ControlError : Type 0 where
  not_found : Handle → ControlError
  denied : ControlError
  rate_limited : ControlError
  spawn_failed : String → ControlError
  bad_request : String → ControlError
  timeout : ControlError

pub data Response : Type 0 where
  spawned : Handle → ℕ → Response
  ack : Response
  status : ProcInfo → Response
  listed : List ProcInfo → Response
  error : ControlError → Response
