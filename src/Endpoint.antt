-- ===== src/Endpoint.antt =====
-- src/endpoint.rs: what `build_endpoint` asks of iroh, as the settings of its builder. The binding is
-- iroh's. Relay URLs are texts.
use mesh_supervisor.Prelude.{String, Option, none, some, List, [], ◌∷◌}
use mesh_supervisor.Proto.{EndpointId}
use mesh_supervisor.Proto.Frame.{Bytes}

-- iroh's address of a node.
pub record EndpointAddr : Type 0 where
  pub id : EndpointId
  pub relay_url : Option String

-- Where addresses are looked up: on the local network, or in a `MemoryLookup`.
pub data AddressLookup : Type 0 where
  mdns memory : AddressLookup

-- `relay_mode` has the URLs of `RelayMode::custom`, and is left to `presets::Minimal` without them.
pub record Builder : Type 0 where
  pub alpns : List String
  pub address_lookups : List AddressLookup
  pub secret_key : Option Bytes
  pub relay_mode : Option (List String)

abbrev minimal : Builder
minimal = record { alpns = []; address_lookups = []; secret_key = none; relay_mode = none }

-- `if let Some(key) = secret_key`
unfoldable pub with_key : Option Bytes → Builder → Builder
with_key none builder = builder
with_key (some key) builder = record builder { secret_key = some key }

-- `if let Some(url) = relay`
unfoldable pub with_relay : Option String → Builder → Builder
with_relay none builder = builder
with_relay (some url) builder = record builder { relay_mode = some (url ∷ []) }

-- `build_endpoint`, up to the `bind`
unfoldable pub build_endpoint : List String → Option Bytes → Option String → Builder
unfolding with_key with_relay
build_endpoint alpns secret_key relay =
    with_relay relay
      (with_key secret_key (record minimal { alpns = alpns; address_lookups = mdns ∷ memory ∷ [] }))
