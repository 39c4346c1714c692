-- ===== src/Lib.antt =====
-- friendlyrabbit, a RabbitMQ client library in Go: a pool of connections and channels that
-- survives network failures, a publisher with receipts and confirmations, payloads that are
-- compressed and encrypted, a consumer, a builder of topologies, and a service that has all of
-- these.
--
-- How the parts interact. A pool (connectionpool.go) keeps a queue of pointers to connection hosts
-- (connectionhost.go) and a Go channel of channel hosts (channelhost.go). Taking a host checks its
-- health, recovers its connection and waits while the broker blocks; returning it puts it at the
-- end of the queue. The publisher (publisher.go) takes a channel of the cache, publishes a letter
-- (message.go), returns the channel and sends a receipt. Letters are made of payloads (json.go,
-- internal/utils/crypto, internal/utils/compression). The auto-publisher takes letters from a Go
-- channel, which QueueLetter sends on, and publishes each in a goroutine of its own. The consumer
-- (consumer.go) takes a channel of the cache, hands the deliveries on as messages until it is
-- stopped or the channel fails, and gives the channel back. The topologer (topologer.go) makes
-- each of its calls on a new channel. The service (rabbitservice.go) has a publisher, with its
-- pool, and consumers by name; it makes letters of its callers' inputs, queues failed letters
-- again as their receipts come, and shuts everything down.
--
-- Files. Base: shared names; Base/Runs, stateful code that returns, panics or is stuck, and what a
-- run ensures; Base/Totality, code that returns; Base/Inside, an action on a part of the state;
-- Base/Entries, maps as lists of entries; Base/Integers, Go's int; Base/Replacing, one element of
-- a list replaced. Error: the errors as values. Config: configs.go. Env: the packages that the
-- code calls, as a record of functions on the outside world, which every call may change;
-- Env/Fifo, what the queue package documents. Pool/State: the structs and the state;
-- Pool/Connection: connectionhost.go; Pool/Channel: channelhost.go; Pool/Recovery: handleError,
-- the flags, triggerConnectionRecovery and verifyHealthyConnection; Pool/Lease: GetConnection,
-- ReturnConnection, GetChannelFromPool, ReturnChannel, createCacheChannel and GetTransientChannel;
-- Pool/Start: NewConnectionPool, initializeConnections and Shutdown. Pool/Steady and its children
-- show what leaves the pool as it is, Pool/View what each call does to the queue and the cache,
-- Pool/Promises states this for sound pools, Pool/Calm for a world in which nothing fails,
-- Pool/Settings the refusals of NewConnectionPool, Pool/Closing what Shutdown leaves.
-- Payload/Compression, Payload/Crypto and Payload/Convert: the three packages of payloads over
-- Payload/Packages; Payload/RoundTrip: their round trip. Message/Letter and Message/Received:
-- message.go; Message/Promises: what holds of them. Publisher/State and Publisher/Publish:
-- publisher.go up to publishReceipt; Publisher/Step, Publisher/Sent, Publisher/Outcome,
-- Publisher/Confirm, Publisher/Reopening and Publisher/Promises: what holds of publishing in any
-- world; Publisher/Accepted: with a broker that accepts. Publisher/Queue: QueueLetter,
-- QueueLetters, StartAutoPublishing, stopAutoPublish and Shutdown. Publisher/Auto: the loops of
-- the auto-publisher, their goroutines and their callers as a step relation; its children Order,
-- Loops and Stopping: what holds in each state that can be reached. Consumer/State: the struct,
-- NewConsumer and Get; Consumer/Control: starting, stopping and flushing; Consumer/Loop:
-- startConsumeLoop and processDeliveries; Consumer/Life: several loops of a consumer, its callers
-- and its lock as a step relation, and Consumer/Races, runs of it; Consumer/Triple, Consumer/Kept,
-- Consumer/Rounds and Consumer/Promises: what holds of them with any broker; Consumer/Serving and
-- Consumer/Delivered: with a broker that delivers; Consumer/Single: Get. Service/State and
-- Service/Setup: the struct and the constructors; Service/Publish: the publishing calls;
-- Service/Stop: Shutdown; Service/Monitor and Service/Collect: the loops of the goroutines;
-- Service/Retries, Service/GivenUp, Service/Lookup, Service/Keyed, Service/Built and
-- Service/Ending: what holds of them. Topology/Request and Topology/Build: topologer.go;
-- Topology/Order and Topology/Quorum: what holds of it. Settings: ConvertJsonToStruct,
-- ConvertJSONFileToConfig and ConvertJSONFileToTopologyConfig of json.go. Sample: a small world,
-- with the tests in Sample/Cases, Sample/Queueing, Sample/Consuming and Sample/Services.
--
-- Conventions. A Go function with a receiver is an action on the state of its struct; its name is
-- the Go name in lower case with underscores (the Shutdown of the publisher and that of the
-- service have the struct's name added). A nil pointer that is used panics. A receive from an
-- empty Go channel, a send on a full one and `queue.Get` on an empty queue are stuck, as is a loop
-- whose rounds are used up: the loops of the pool, the publisher, the consumer and the service
-- have no bound of their own, so each takes the number of rounds that it may make, and what is
-- said of a run that ensures something holds for every number of rounds. Where a run is said to
-- return, the statement names the rounds that are enough: one of each loop, and two of the loop of
-- Shutdown over the queue. Numbers are natural numbers; the widths of the Go fields stand beside
-- them, and where the code adds to one the wrap is written out. A Go map is a function or a list
-- of entries. In the loops of the consumer and of the service a function `others` stands for what
-- other goroutines have done since the loop last looked at what they share; for the auto-
-- publisher, and for the starting and stopping of a consumer, every interleaving is a sequence of
-- steps, one of a loop, of a goroutine or of a caller each.
--
-- Not modelled: mutexes, but for the consumer's in Consumer/Life, and the interleaving of the
-- goroutines that share a pool (a run is one goroutine's, but for the step relations and for
-- `others`; a goroutine that only sends a receipt is taken to have sent it, and one that only
-- closes something to have done so). In the steps of the auto-publisher a goroutine's publishing
-- is one step, its end. The service's goroutines are runs of their own; GetConsumer gives the
-- consumer as a value, which shares the pool of the service and nothing else. The decoding of
-- JSON, which is by reflection; timestamps, and getters of a field. The increment of a failed
-- letter's retry count is seen in the letter of the receipt, which is what is queued again.
pub mod Base
pub mod Error
pub mod Config
pub mod Env
pub mod Pool
pub mod Payload
pub mod Message
pub mod Publisher
pub mod Consumer
pub mod Service
pub mod Topology
pub mod Settings
pub mod Sample
