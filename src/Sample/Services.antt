-- ===== src/Sample/Services.antt =====
-- A service on the sample world, with one consumer.
use friendlyrabbit.Base.{◌≡◌, refl, true, false, none, some, [], ◌∷◌, done, Returns, arith}
use friendlyrabbit.Error.{external, retrying}
use friendlyrabbit.Message.Letter.{default_opts, receipt_of}
use friendlyrabbit.Message.Promises.{fail_times}
use friendlyrabbit.Publisher.State.{new_publisher}
use friendlyrabbit.Consumer.State.{new_consumer}
use friendlyrabbit.Service.State.{RabbitSeasoning, Service}
use friendlyrabbit.Service.Setup.{blank_service}
use friendlyrabbit.Service.Monitor.{process_receipt}
use friendlyrabbit.Service.Stop.{shutdown_service}
use friendlyrabbit.Service.Retries.{with_more, process_receipt-outcome}
use friendlyrabbit.Service.GivenUp.{process_receipt-gives_up}
use friendlyrabbit.Config.{EncryptionConfig}
use friendlyrabbit.Service.Setup.{new_rabbit_service_with_publisher}
use friendlyrabbit.Service.Built.{IsBuilt, keyed, new_rabbit_service_with_publisher-Returns}
use friendlyrabbit.Service.Ending.{alone, IsEmptied, shutdown_service-Returns}
use friendlyrabbit.Sample.{env, packages, publisher, publisher_config, pool_config, letter}
use friendlyrabbit.Sample.Laws.{fifo, sound}
use friendlyrabbit.Sample.Consuming.{incoming, consumer_config, consumer}

abbrev seasoning : RabbitSeasoning packages
seasoning = record {
  encryption_config = none;
  compression_config = none;
  pool_config = some pool_config;
  consumer_configs = ("in", some consumer_config) ∷ [];
  publisher_config = some publisher_config;
}

abbrev service : Service env packages incoming
service = record (blank_service env packages incoming publisher seasoning) {
  consumers = ("in", record consumer { started = true }) ∷ [];
}

process_receipt-outcome_example :
    process_receipt env packages incoming
      (alone env packages incoming)
      (receipt_of packages letter (some (external 0)))
      service
    ≡ done tt (
        with_more env packages incoming
          (alone env packages incoming)
          (fail_times packages 1 (external 0) letter ∷ [])
          (retrying "id" 4 ∷ [])
          service)
unfolding receipt_of fail_times default_opts new_publisher
process_receipt-outcome_example =
    process_receipt-outcome env packages incoming (alone env packages incoming)
      (receipt_of packages letter (some (external 0))) publisher_config service refl (omega arith)
      (omega arith)

-- The third failure: 3 + 3 is more than 5.
process_receipt-gives_up_example :
    (t : Service env packages incoming) × (process_receipt env packages incoming
        (alone env packages incoming)
        (receipt_of packages (fail_times packages 2 (external 0) letter) (some (external 0)))
        service
      ≡ done tt t)
    × (t.publisher.letters ≡ [])
unfolding default_opts new_publisher
process_receipt-gives_up_example =
    process_receipt-gives_up env packages incoming (alone env packages incoming) 2 (external 0)
      letter publisher_config service refl (omega arith) (omega arith) (omega arith) refl

abbrev encryption : EncryptionConfig
encryption = record {
  enabled = true;
  kind = "aes";
  hashkey = [];
  time_consideration = 1;
  memory_multiplier = 64;
  threads = 2;
}

abbrev encrypting : RabbitSeasoning packages
encrypting = record seasoning { encryption_config = some encryption }

new_rabbit_service_with_publisher-Returns_example :
    Returns
      (λ u t.
        IsBuilt env packages incoming true
          (("in", consumer_config) ∷ [])
          (keyed env packages incoming true encrypting encryption (1 ∷ []) (2 ∷ []))
          t)
      (new_rabbit_service_with_publisher env packages incoming publisher encrypting
        (1 ∷ [])
        (2 ∷ []))
new_rabbit_service_with_publisher-Returns_example =
    new_rabbit_service_with_publisher-Returns env packages incoming publisher encrypting encryption
      (("in", consumer_config) ∷ []) (1 ∷ []) (2 ∷ []) refl refl (tt, tt)

shutdown_service-Returns_example :
    Returns
      (λ is_stopping t.
        (is_stopping ≡ false)
        × IsEmptied env packages incoming fifo t.publisher.pool
        × (t.consumers
            ≡ (
              "in",
              record consumer { started = true; consume_stop = true ∷ []; received_messages = [] },
            )
              ∷ [])
        × (t.shutdown_signal ≡ true ∷ []))
      (shutdown_service env packages incoming (alone env packages incoming) 2 true service)
unfolding new_publisher new_consumer
shutdown_service-Returns_example =
    shutdown_service-Returns env packages incoming fifo 0 true service sound (λ n. ([], refl)) refl
      (refl, tt)
