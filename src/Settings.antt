-- ===== src/Settings.antt =====
-- The reading of settings from files, of json.go.
use friendlyrabbit.Base.{String, Option, none, List, [], ℕ}
use friendlyrabbit.Error.{Error, Result, ok, err}
use friendlyrabbit.Env.{Env}
use friendlyrabbit.Payload.Packages.{Packages}
use friendlyrabbit.Service.State.{RabbitSeasoning}
use friendlyrabbit.Topology.Request.{TopologyConfig}

-- `json.Unmarshal(bytes, c)`: its error, and the struct that `c` points to after it.
abbrev pub Decoder : Type 0 → Type 0
Decoder C = List ℕ → C → Option Error × C

module _ {C : Type 0} where
  -- The error of the file is dropped.
  unfoldable pub decoded : Decoder C → C → Result (List ℕ) → Option Error × C
  decoded unmarshal c (err x) = (none, c)
  decoded unmarshal c (ok text) = unmarshal text c

module _ (e : Env) where
  unfoldable pub convert_json_to_struct :
      {C : Type 0} → Decoder C → String → C → e.Net → (Option Error × C) × e.Net
  unfolding decoded
  convert_json_to_struct unmarshal path c net =
      let (file, net') = e.read_file path net in (decoded unmarshal c file, net')

  -- `&TopologyConfig{}`
  abbrev pub no_topology : (k : Packages) → TopologyConfig k
  no_topology k = record {
    exchanges = [];
    queues = [];
    queue_bindings = [];
    exchange_bindings = [];
  }

  unfoldable pub convert_json_file_to_topology_config :
      (k : Packages)
      → Decoder (TopologyConfig k)
      → String
      → e.Net
      → (TopologyConfig k × Option Error) × e.Net
  unfolding convert_json_to_struct
  convert_json_file_to_topology_config k unmarshal path net =
      let ((x, config), net') = convert_json_to_struct unmarshal path (no_topology k) net in
      ((config, x), net')

  -- `&RabbitSeasoning{}`
  abbrev pub no_seasoning : (k : Packages) → RabbitSeasoning k
  no_seasoning k = record {
    encryption_config = none;
    compression_config = none;
    pool_config = none;
    consumer_configs = [];
    publisher_config = none;
  }

  unfoldable pub convert_json_file_to_config :
      (k : Packages)
      → Decoder (RabbitSeasoning k)
      → String
      → e.Net
      → (RabbitSeasoning k × Option Error) × e.Net
  unfolding convert_json_to_struct
  convert_json_file_to_config k unmarshal path net =
      let ((x, config), net') = convert_json_to_struct unmarshal path (no_seasoning k) net in
      ((config, x), net')
