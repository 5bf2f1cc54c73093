-- ===== src/Lib.antt =====
-- The real-time side of EliteHub Vault: how changes reach the clients that listen for them, and
-- what keeps the service within its limits.
--
-- The worker writes a row to the outbox for each change. The relay (Relay) takes batches of rows,
-- builds the targets of each row (Contracts, Contracts/Targets) and publishes them to Redis
-- channels before it deletes the rows. Each API process subscribes to the channels that its
-- clients ask for (Subscriptions), traces a channel back to its event type and routing key
-- (Registry) and writes to each connection (Broker), which the service opens and gives back
-- (Service) and counts (Metrics). A client needs an API key (Auth) and a lease (Limiter) and is
-- subject to a rate limit (RateLimiter). The listener that feeds the worker is watched by two
-- monitors (Monitors), and the worker writes what the messages of EDDN say into the tables
-- (Worker).
--
-- Contracts, Contracts/Payloads, Contracts/Targets: packages/queue-contracts/src/realtime.ts and
-- apps/api/src/realtime/eventPublishTargets.ts. A text is a list of code units, a JavaScript Map
-- or Set an association list or a list (Base). zod and Date are the record Platform, a parameter.
-- Registry: apps/api/src/realtime/sse/eventRegistry.ts, getRealtimeEventSpec and
-- findRealtimeEventByChannel as realtime_event_spec and find_realtime_event_by_channel.
-- Relay: apps/api/src/realtime/eventOutboxRelay.ts. Postgres is the record OutboxDb, a parameter;
-- a call of Postgres or Redis, BEGIN and COMMIT
-- included, fails where the parameter `accepts` says so; a COMMIT that fails is taken to be undone. A step is a function of
-- the world that may throw; round is one turn of the loop, transaction and sleep included.
-- Redis, Redis/Association: the sorted sets of Redis as an interface with the documented laws of
-- ZADD, ZREM, ZREMRANGEBYSCORE and ZCARD, and an instance of it.
-- Limiter: apps/api/src/realtime/sse/connectionLimiter.ts, its scripts and tryOpen, refreshLease,
-- releaseLease, clearAllLeases, onOpen and onClose. The time of a call is an argument.
-- RateLimiter: apps/api/src/auth/apiRateLimiter.ts, its script and consume.
-- Subscriptions: apps/api/src/realtime/sse/redisSubscriptionManager.ts. An operation runs up to
-- its wait for Redis; a run is a list of events (calls, starts, settled promises, ready and
-- close). Subscriptions/Automaton is the abstract view of a single key, Subscriptions/Heard what the
-- commands that were sent leave subscribed at Redis.
-- Broker, Broker/Queue, Broker/Order: apps/api/src/realtime/sse/sseBroker.ts, one connection with
-- its queue: enqueueRawFrame, flushConnectionQueue up to and behind each write, with writeFrame,
-- cleanupConnection
-- and the frames of routeEvent. Buffer.byteLength is a parameter.
-- Service: apps/api/src/realtime/sse/sseService.ts and sseLeaseHeartbeat.ts, with the function
-- openRealtimeSseConnection as a session. What happens behind a wait (the reply of the broker, of a
-- refresh) and at a closed socket are its events; its calls are a list.
-- Service/Parameters: apps/api/src/realtime/sse/subscriptionParams.ts, the schemas as what they
-- test.
-- Metrics: apps/api/src/realtime/sse/sseMetrics.ts.
-- Auth, Auth/Keys, Auth/Resolution, Auth/Failures: apps/api/src/auth/apiKeyCrypto.ts and
-- apiKeyResolver.ts. The caches and the table are the record Sources, node:crypto the record
-- Crypto, both parameters; a call that rejects is the reply `threw`. Auth/Middleware:
-- apps/api/src/middleware/auth/requireApiKey.ts.
-- Monitors/Heartbeat, Monitors/Backlog: apps/eddn-listener/src/enqueueHeartbeatMonitor.ts and
-- queueMonitor.ts. A heartbeat check is two steps, before and behind the wait for its push.
-- Worker: apps/eddn-worker/src/mq/queues/eddn. Worker/Enums, Worker/Values and Worker/Messages are
-- the enumerations of packages/db/src/schema.ts, the maps of constants.ts and the types of
-- packages/eddn-contracts/src/types.ts. Worker/Services: helpers/stationServices.ts.
-- Worker/Stations: helpers/stationHelpers.ts and strongholdCarrierHelpers.ts, the table as the
-- list of its rows; a statement that breaks a unique constraint or a foreign key is `none`. What Postgres chooses (the row
-- that `limit(1)` leaves, the order, ids, the comparison of citext) is the record Postgres, a
-- parameter, and so are the insert schemas, toLowerCase and trim. Worker/Stations/Arrivals: the
-- stations of Docked and Location messages. Worker/Factions: factionHelpers.ts.
-- Worker/Powerplay, Worker/Links: powerplayHelpers.ts. Worker/Systems: systemHelpers.ts.
-- Examples: concrete inputs and runs.
--
-- Times, counters and limits are natural numbers of any size, as JavaScript's safe integers are
-- not exceeded by milliseconds or by counts of connections. No definition needs fuel but
-- `decimal`, whose fuel is the number itself and one more.
--
-- Not modelled: the broker's maps of connections and channels, the start and the end of the
-- service, the upserts of the worker's faction states and faction conflicts, its queue, the
-- GraphQL plugins, the scripts, logging and telemetry. The stop of the subscription manager is
-- left out, since it forgets the promises that order the operations.
pub mod Base
pub mod Contracts
pub mod Registry
pub mod Relay
pub mod Redis
pub mod Limiter
pub mod RateLimiter
pub mod Subscriptions
pub mod Broker
pub mod Auth
pub mod Monitors
pub mod Metrics
pub mod Service
pub mod Worker
pub mod Examples
