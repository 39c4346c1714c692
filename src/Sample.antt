-- ===== src/Sample.antt =====
-- A small world for the tests: one host, whose connection is open, a queue that is a list, and
-- packages that do next to nothing. The outside world counts the calls that publish or declare.
mod Laws
mod Cases
mod Queueing
mod Consuming
mod Services
use friendlyrabbit.Base.{
  ℕ, zero, suc, String, Bool, true, false, Option, none, some, List, [], ◌∷◌, ◌++◌, length, take,
  drop, is_nil,
}
use friendlyrabbit.Error.{Error, external, Result, ok, err, idle}
use friendlyrabbit.Config.{PoolConfig, PublisherConfig}
use friendlyrabbit.Env.{Env, Item, host, Got, items, blocks}
use friendlyrabbit.Payload.Packages.{Codec, Packages}
use friendlyrabbit.Message.Letter.{Letter, default_opts}
use friendlyrabbit.Pool.State.{ConnectionHost, ChannelHost, Pool}
use friendlyrabbit.Publisher.State.{settled, Broker, Publisher, new_publisher}
use friendlyrabbit.Topology.Request.{Declarer}

abbrev pub list_get : ℕ → List Item → Got (List Item)
list_get n [] = blocks
list_get n (i ∷ rest) = items (take n (i ∷ rest)) (drop n (i ∷ rest))

abbrev pub list_empty : List Item → Bool
list_empty [] = true
list_empty (i ∷ rest) = false

abbrev pub env : Env
env = record {
  Net = ℕ;
  Connection = Unit {0};
  Channel = ℕ;
  Notices = Unit {0};
  Blockers = Unit {0};
  make_notices = λ n w. (tt, w);
  make_blockers = λ n w. (tt, w);
  poll_notices = λ c w. (idle, w);
  poll_blockers = λ c w. (idle, w);
  is_closed = λ c w. (false, w);
  close_connection = λ c w. (tt, w);
  notify_close = λ c n w. (tt, w);
  notify_blocked = λ c n w. (tt, w);
  open_channel = λ c w. (ok w, w);
  confirm = λ c b w. (none, w);
  notify_channel_close = λ c n w. (tt, w);
  close_channel = λ c w. (tt, w);
  Tls = Unit {0};
  Certificate = Unit {0};
  new_tls = tt;
  read_file = λ name w. (ok [], w);
  append_certs = λ bytes t. t;
  load_key_pair = λ a b w. (ok tt, w);
  add_certificate = λ c t. t;
  dial = λ uri c w. (ok tt, w);
  sleep = λ t w. (tt, w);
  format_uint = λ n. "0";
  Queue = List Item;
  new_queue = λ n. some [];
  put = λ i q. (none, q ++ (i ∷ []));
  get = list_get;
  len = λ q. length q;
  is_empty = list_empty;
}

-- What is written is kept as it is.
abbrev pub plain : Codec
plain = record {
  Writer = List ℕ;
  Reader = List ℕ;
  new_writer = ok [];
  write = λ text w. (none, w ++ text);
  close_writer = λ w. (none, w);
  written = λ w. w;
  new_reader = λ bytes. ok bytes;
  read_all = λ r. ok r;
  close_reader = λ r. none;
}

abbrev pub zeros : ℕ → List ℕ
zeros zero = []
zeros (suc n) = 0 ∷ zeros n

abbrev pub unsealed : List ℕ → Result (List ℕ)
unsealed [] = err (external 0)
unsealed (seal ∷ text) = ok text

abbrev pub packages : Packages
packages = record {
  Value = ℕ;
  Context = Unit {0};
  background = tt;
  Uuid = ℕ;
  uuid_string = λ n. "id";
  HeaderValue = String;
  text_value = λ t. t;
  marshal = λ v. ok (v ∷ []);
  zstd = plain;
  gzip = plain;
  Block = Unit {0};
  Gcm = Unit {0};
  new_cipher = λ key. ok tt;
  new_gcm = λ b n. ok tt;
  seal = λ g nonce text. 7 ∷ text;
  unseal = λ g nonce cipher. unsealed cipher;
  random = λ n. ok (zeros n);
  id_key = λ p s t m n l. p;
}

abbrev pub broker : Broker env packages
broker = record {
  Confirmation = Unit {0};
  publish = λ c p w. (none, suc w);
  publish_deferred = λ c p w. (ok (some tt), suc w);
  wait = λ ctx t c w. (settled, w);
  acked = λ c w. (true, w);
}

abbrev pub declarer : Declarer env packages
declarer = record { declare = λ c q w. (none, suc w); remove = λ c q w. ((0, none), suc w) }

abbrev pub pool_config : PoolConfig
pool_config = record {
  application_name = "app";
  uri = "amqp://localhost";
  heartbeat = 1;
  connection_timeout = 1;
  sleep_on_error_interval = 0;
  max_connection_count = 1;
  max_cache_channel_count = 2;
  tls_config = none;
}

abbrev pub open_host : ConnectionHost env
open_host = record {
  connection = some tt;
  connection_id = 0;
  cached_channel_count = 0;
  uri = "amqp://localhost";
  connection_name = "app-0";
  heartbeat_interval = 1;
  connection_timeout = 1;
  tls_config = none;
  errors = tt;
  blockers = tt;
}

abbrev pub open_channel : ChannelHost env
open_channel = record {
  channel = some 0;
  id = 0;
  connection_id = 0;
  ackable = true;
  transient = true;
  errors = some tt;
  conn_host = 0;
}

-- A pool of one host and one channel.
abbrev pub pool : Pool env
pool = record {
  net = 0;
  hosts = λ p. some open_host;
  next_host = 1;
  config = pool_config;
  uri = "amqp://localhost";
  heartbeat_interval = 1;
  connection_timeout = 1;
  connections = host 0 ∷ [];
  channels = open_channel ∷ [];
  connection_id = 1;
  flagged_connections = λ id. none;
  sleep_on_error_interval = 0;
  error_handler = none;
  unhealthy_handler = none;
}

abbrev pub publisher_config : PublisherConfig
publisher_config = record {
  auto_ack = true;
  sleep_on_idle_interval = 0;
  sleep_on_error_interval = 0;
  publish_time_out_interval = 1000;
  max_retry_count = 5;
}

abbrev pub publisher : Publisher env packages
publisher = new_publisher env packages publisher_config pool

abbrev pub letter : Letter packages
letter = record { letter_id = 1; body = 4 ∷ []; opts = default_opts packages "ex" "key" }
