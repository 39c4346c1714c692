-- ===== src/Config.antt =====
-- configs.go: the settings, with the widths of the Go fields beside them.
use friendlyrabbit.Base.{ℕ, ℤ, String, Bool, Option, List}

pub record TlsSettings : Type 0 where
  pub enable_tls : Bool
  pub pem_cert_location : String
  pub local_cert_location : String
  pub cert_server_name : String

pub record PoolConfig : Type 0 where
  pub application_name : String
  pub uri : String
  pub heartbeat : ℕ  -- uint32, seconds
  pub connection_timeout : ℕ  -- uint32, seconds
  pub sleep_on_error_interval : ℕ  -- uint32, milliseconds
  pub max_connection_count : ℕ  -- uint64
  pub max_cache_channel_count : ℕ  -- uint64
  pub tls_config : Option TlsSettings

-- `Table` is the type of the arguments, `map[string]interface{}`.
pub record ConsumerConfig (Table : Type 0) : Type 0 where
  pub queue_name : String
  pub consumer_name : String
  pub auto_ack : Bool
  pub exclusive : Bool
  pub no_wait : Bool
  pub args : Table
  pub qos_count_override : ℤ  -- int
  pub sleep_on_error_interval : ℕ  -- uint32, milliseconds

pub record PublisherConfig : Type 0 where
  pub auto_ack : Bool
  pub sleep_on_idle_interval : ℕ  -- uint32, milliseconds
  pub sleep_on_error_interval : ℕ  -- uint32, milliseconds
  pub publish_time_out_interval : ℕ  -- uint32, milliseconds
  pub max_retry_count : ℕ  -- uint16

-- `kind` is the field Type.
pub record CompressionConfig : Type 0 where
  pub enabled : Bool
  pub kind : String

pub record EncryptionConfig : Type 0 where
  pub enabled : Bool
  pub kind : String
  pub hashkey : List ℕ
  pub time_consideration : ℕ  -- uint32
  pub memory_multiplier : ℕ  -- uint32
  pub threads : ℕ  -- uint8
