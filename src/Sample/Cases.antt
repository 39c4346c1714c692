-- ===== src/Sample/Cases.antt =====
-- The library on the sample world: a pool of one host and one channel, a publisher on it, a letter,
-- a payload and a topology.
use friendlyrabbit.Base.{
  ◌&&◌, ◌==◌, if◌then◌else◌, Option, zero, suc, ℕ, ◌≡◌, ◌↔◌, refl, String, true, false, none, some,
  List, [], ◌∷◌, Ensures, Returns, arith, ◌>>=◌, pure,
}
use friendlyrabbit.Error.{Error, Result, external, ok, err}
use friendlyrabbit.Config.{CompressionConfig, EncryptionConfig}
use friendlyrabbit.Env.{host}
use friendlyrabbit.Payload.Convert.{encode, bytes, to_payload, read_payload}
use friendlyrabbit.Payload.Compression.{compress}
use friendlyrabbit.Payload.Crypto.{encrypt, encrypt_with_aes}
use friendlyrabbit.Payload.RoundTrip.{read_payload-to_payload, to_payload_without_key}
use friendlyrabbit.Message.Letter.{default_opts}
use friendlyrabbit.Message.Promises.{fail_times, fail_times-retry_count}
use friendlyrabbit.Pool.Start.{new_connection_pool, shutdown}
use friendlyrabbit.Pool.Recovery.{is_connection_flagged}
use friendlyrabbit.Pool.Closing.{shutdown-Returns}
use friendlyrabbit.Pool.Settings.{IsRefused, HasZero, new_connection_pool-refuses}
use friendlyrabbit.Pool.Lease.{
  get_connection, return_connection, create_cache_channel, return_channel,
}
use friendlyrabbit.Pool.View.Lease.{IsCreated}
use friendlyrabbit.Pool.View.Channels.{Returned}
use friendlyrabbit.Pool.Promises.{
  Leaves, MadeChannel, get_connection-head, return_connection-last, create_cache_channel-IsSound,
  return_channel-last,
}
use friendlyrabbit.Pool.Calm.Promises.{get_connection-Returns, create_cache_channel-Returns}
use friendlyrabbit.Publisher.State.{Broker, Publisher, new_publisher}
use friendlyrabbit.Publisher.Publish.{publish, publish_with_confirmation}
use friendlyrabbit.Publisher.Sent.{Published}
use friendlyrabbit.Publisher.Accepted.{Accepted, publish_with_confirmation-Returns}
use friendlyrabbit.Publisher.Promises.{publish-receipt}
use friendlyrabbit.Topology.Request.{
  Queue, TopologyConfig, quorum_defaults, queue_request, queue_declare,
}
use friendlyrabbit.Topology.Build.{ask, each, build_topology}
use friendlyrabbit.Topology.Order.{requests_of, build_topology-order}
use friendlyrabbit.Topology.Quorum.{quorum_queue-declared}
use friendlyrabbit.Sample.{
  env, packages, broker, declarer, pool_config, open_host, open_channel, pool, publisher, letter,
}
use friendlyrabbit.Sample.Laws.{accepting, fifo, inverse, sealing, calm, opening, sound}

publish_with_confirmation-Returns_example :
    Returns
      (Accepted env packages broker accepting 1 0 letter 1000000000 publisher (open_channel ∷ []))
      (publish_with_confirmation env packages broker 1 1 letter 1000000000 publisher)
unfolding new_publisher
publish_with_confirmation-Returns_example =
    publish_with_confirmation-Returns env packages broker accepting 1 0 letter 1000000000 publisher
      open_channel [] 0 refl refl refl refl (λ x n. refl)

-- Only the first publish has an error.
abbrev first_fails : ℕ → Result (Option (Unit {0})) × ℕ
first_fails zero = (err (external 0), 1)
first_fails (suc w) = (ok (some tt), suc (suc w))

abbrev failing : Broker env packages
failing = record broker { publish_deferred = λ c p w. first_fails w }

-- The same letter published with a receipt.
publish-receipt_example :
    Ensures
      (Published env packages broker fifo pool
        (host 0 ∷ [])
        open_channel
        0
        []
        letter
        true
        publisher)
      (publish env packages broker 1 letter true publisher)
unfolding new_publisher
publish-receipt_example =
    publish-receipt env packages broker fifo 1 letter publisher sound true open_channel 0 [] refl
      refl refl (omega arith)

create_cache_channel-Returns_example :
    Returns
      (λ ch t. IsCreated env fifo pool 3 true 0 ch × Leaves env fifo 0 pool sound (host 0 ∷ []) t)
      (create_cache_channel env 1 1 3 true pool)
create_cache_channel-Returns_example =
    create_cache_channel-Returns env fifo 0 pool sound opening 0 3 true 0 [] refl

create_cache_channel-IsSound_example :
    Ensures (MadeChannel env fifo 2 pool sound 3 true) (create_cache_channel env 2 2 3 true pool)
create_cache_channel-IsSound_example =
    create_cache_channel-IsSound env fifo 2 pool sound 2 3 true (omega arith)

get_connection-Returns_example :
    Returns (λ x t. (x ≡ ok 0) × Leaves env fifo 0 pool sound [] t) (get_connection env 1 pool)
get_connection-Returns_example = get_connection-Returns env fifo 0 pool sound calm 0 [] refl

get_connection-head_example :
    Ensures (λ x t. (x ≡ ok 0) × Leaves env fifo 2 pool sound [] t) (get_connection env 2 pool)
get_connection-head_example = get_connection-head env fifo 2 pool sound 0 [] refl

return_connection-last_example :
    Returns
      (λ u t.
        Leaves env fifo 2 pool sound (host 0 ∷ (host 0 ∷ [])) t
        × ((id : ℕ)
            → is_connection_flagged env t id
              ≡ (if true && (id == 0) then true else is_connection_flagged env pool id)))
      (return_connection env 0 true pool)
return_connection-last_example =
    return_connection-last env fifo 2 pool sound 0 open_host true (omega arith) refl

-- A second channel, which had an error.
return_channel-last_example :
    Ensures
      (λ u t. Returned env fifo pool (host 0 ∷ []) (open_channel ∷ []) true open_channel t)
      (return_channel env 2 open_channel true pool)
return_channel-last_example =
    return_channel-last env fifo 2 pool sound open_channel true (omega arith) refl

shutdown-Returns_example :
    Returns
      (λ u t.
        (t.connections ≡ [])
        × (t.channels ≡ [])
        × (t.connection_id ≡ 0)
        × ((id : ℕ) → is_connection_flagged env t id ≡ false))
      (shutdown env 2 pool)
shutdown-Returns_example = shutdown-Returns env fifo 0 pool sound (λ n. ([], refl))

abbrev gzip_on : CompressionConfig
gzip_on = record { enabled = true; kind = "gzip" }

abbrev aes_on : List ℕ → EncryptionConfig
aes_on key = record {
  enabled = true;
  kind = "aes";
  hashkey = key;
  time_consideration = 1;
  memory_multiplier = 64;
  threads = 2;
}

abbrev three : List ℕ
three = 1 ∷ (2 ∷ (3 ∷ []))

-- Three bytes, compressed and encrypted.
read_payload-to_payload_example :
    read_payload packages
      (0 ∷ (0 ∷ (0 ∷ (0 ∷ (0 ∷ (0 ∷ (0 ∷ (0 ∷ (0 ∷ (0 ∷ (0 ∷ (0 ∷ (7 ∷ three)))))))))))))
      (some gzip_on)
      (some (aes_on three))
    ≡ ok three
unfolding encode to_payload compress encrypt encrypt_with_aes
read_payload-to_payload_example =
    read_payload-to_payload packages inverse inverse sealing (bytes three) (some gzip_on)
      (some (aes_on three)) three _ refl refl

to_payload_without_key_example :
    (x : Error) × (to_payload packages (bytes three) none (some (aes_on [])) ≡ err x)
to_payload_without_key_example =
    to_payload_without_key packages (bytes three) none (aes_on []) refl refl

fail_times-retry_count_example :
    ((fail_times packages 2 (external 0) letter).letter_id ≡ 1)
    × ((fail_times packages 2 (external 0) letter).body ≡ (4 ∷ []))
    × ((fail_times packages 2 (external 0) letter).opts.retry_count ≡ 5)
unfolding default_opts
fail_times-retry_count_example = fail_times-retry_count packages 2 (external 0) letter (omega arith)

new_connection_pool-refuses_example :
    IsRefused env (new_connection_pool env 1 pool_config none none 0) ↔ HasZero env pool_config
new_connection_pool-refuses_example = new_connection_pool-refuses env 1 pool_config none none 0

abbrev quorum_queue : List (String × String) → Queue packages
quorum_queue args = record {
  name = "jobs";
  passive_declare = false;
  durable = false;
  auto_delete = true;
  exclusive = true;
  no_wait = true;
  kind = "quorum";
  args = some args;
}

abbrev bare_queue : Queue packages
bare_queue = record (quorum_queue []) { args = none }

quorum_queue-declared_example :
    (queue_request packages (quorum_defaults packages bare_queue)
      ≡ queue_declare "jobs" true false false false (some (("x-queue-type", "quorum") ∷ [])))
    × (queue_request packages (quorum_defaults packages (quorum_defaults packages bare_queue))
        ≡ queue_request packages (quorum_defaults packages bare_queue))
quorum_queue-declared_example = quorum_queue-declared packages bare_queue refl refl

abbrev topology : TopologyConfig packages
topology = record {
  exchanges = [];
  queues = bare_queue ∷ [];
  queue_bindings = [];
  exchange_bindings = [];
}

build_topology-order_example :
    (build_topology env packages declarer 2 topology false >>= λ r. pure r.0)
    ≡ each env packages declarer 2
        (ask env packages declarer 2)
        false
        (requests_of packages topology)
build_topology-order_example = build_topology-order env packages declarer 2 false topology
