-- ===== src/Commands/Network.antt =====
-- src/commands.rs: what the runners ask of iroh and of its gossip. The ALPN of iroh_gossip and the
-- hash of `topic_for` are parameters.
pub mod Topic
use mathlib.Core.Option
use mesh_supervisor.Prelude.{String, Option, none, some, List, [], ◌∷◌}
use mesh_supervisor.Cli.Values.{relay_url}
use mesh_supervisor.Commands.Actions.{
  Action, supervise, call, pipe_input, follow_output, watch_ticks, complete, Dial, SuperviseRun,
  WatchRun,
}
use mesh_supervisor.Endpoint.{EndpointAddr, Builder, build_endpoint}
use mesh_supervisor.Proto.{EndpointId, control_alpn}
use mesh_supervisor.Proto.Frame.{Bytes}
use mesh_supervisor.Telemetry.{topic_for}

pub record Gossip : Type 0 where
  pub alpn : String
  pub hash : String → Bytes

-- The endpoint, the address book, the ALPNs of the router, and the topic with its bootstrap peers.
pub record Node : Type 0 where
  pub endpoint : Builder
  pub book : List EndpointAddr
  pub accepts : List String
  pub topic : Bytes
  pub bootstrap : List EndpointId

unfoldable pub dial_addr : EndpointId → Option String → EndpointAddr
dial_addr id (some r) = record { id = id; relay_url = some r }
dial_addr id none = record { id = id; relay_url = none }

abbrev pub via_relay : String → List EndpointId → List EndpointAddr
via_relay r [] = []
via_relay r (id ∷ peers) = record { id = id; relay_url = some r } ∷ via_relay r peers

-- What is added to the book.
unfoldable pub seed_relay_addrs : Option String → List EndpointId → List EndpointAddr
seed_relay_addrs (some r) peers = via_relay r peers
seed_relay_addrs none peers = []

-- `client_streaming`: its endpoint, and the address that it dials.
unfoldable pub client_endpoint : Dial → Builder × EndpointAddr
unfolding dial_addr build_endpoint
client_endpoint dial = (build_endpoint [] none dial.relay, dial_addr dial.target dial.relay)

-- `run_supervise`, with the key of its store.
unfoldable pub supervise_node : Gossip → Bytes → SuperviseRun → Node
unfolding build_endpoint seed_relay_addrs topic_for
supervise_node g key run = record {
  endpoint = build_endpoint (control_alpn ∷ g.alpn ∷ []) (some key) run.relay;
  book = seed_relay_addrs run.relay run.bootstrap;
  accepts = control_alpn ∷ g.alpn ∷ [];
  topic = topic_for g.hash run.topic_secret;
  bootstrap = run.bootstrap;
}

-- `run_watch`
unfoldable pub watch_node : Gossip → WatchRun → Node
unfolding build_endpoint seed_relay_addrs topic_for
watch_node g run = record {
  endpoint = build_endpoint (g.alpn ∷ []) none run.relay;
  book = seed_relay_addrs run.relay run.bootstrap;
  accepts = g.alpn ∷ [];
  topic = topic_for g.hash run.topic_secret;
  bootstrap = run.bootstrap;
}

-- The node of a command line that has one.
unfoldable pub node_of : Gossip → Bytes → Action → Option Node
unfolding supervise_node watch_node
node_of g key (supervise run) = some (supervise_node g key run)
node_of g key (watch_ticks run) = some (watch_node g run)
node_of g key (call dial cmd) = none
node_of g key (pipe_input dial id) = none
node_of g key (follow_output dial id) = none
node_of g key (complete shell) = none
