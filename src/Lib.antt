-- ===== src/Lib.antt =====
-- A model of the services of this repository: the user service, the notification service and the
-- API gateway, with what they use of the shared libraries, and the scripts for operators.
--
-- The program. A sign-up is stored by the user service together with an outbox event, in one
-- transaction. The relay of the user service leases due events, publishes them to JetStream and
-- marks them published; several replicas may do so at once. The notification service consumes the
-- events, each possibly several times, and keeps one delivery record for each event, so that it
-- sends one notification; what it cannot process goes to a dead-letter subject. The gateway calls
-- the user service over NATS, turns failures into HTTP errors, and issues and checks the tokens that
-- protect an account. One script provisions the stream of events, another inspects the dead letters
-- and publishes one again.
--
-- The files.
--   Base            shared names; the monad of methods that may throw, and the logic `Ensures`
--   Database        what the services use of a Prisma model, as a record of statements and laws;
--                   Database/Memory is a table that meets them, Database/Rows the effect on rows
--   Contracts       libs/contracts/src: the user.created event and the subjects; Schemas is the zod
--                   schemas of the requests, the answers and the event, Validating and Rereading
--                   about what they accept again, and Announcing about a sign-up and its readers
--   Outbox          apps/user-service/src/outbox/outbox.repository.ts: claimBatch, markPublished,
--                   markFailed, deletePublishedBefore, getOperationalSnapshot; its children say
--                   what each does; Outbox/Replicas what interleaved statements do, Histories how
--                   the methods are such statements, and Progress when they return
--   Messaging       libs/messaging/src/pub-sub: Messaging/Publisher is publisher.ts, and
--                   Messaging/Consumer consumer.ts: its children Config, Binding, Starting and
--                   Processing are the configuration, the durable consumer on the server, the
--                   start, and what becomes of a message; Messaging/Streams is
--                   stream-bootstrap.ts, with Comparing about requiresUpdate and Provisioning
--                   about ensure
--   Relay           apps/user-service/src/outbox/outbox.relay.ts: publish, the rounds of run,
--                   runCleanup and reportMetrics, and the constructor; Publishing and Sweeping
--                   are about a publication and a clean-up, Histories and Progress about the rounds;
--                   Relay/Running is start and stop with the turns of the three loops, Turns
--                   and Stopping are about them
--   Delivery        apps/notification-service/src: the delivery repository and
--                   NotificationService.handleUserCreated: Claims, Exclusion and Settling are about
--                   the repository, Handling about that method, and Consuming about the consumer
--                   of user events with that method as its handler
--   Users           apps/user-service/src/services/user.service.ts and
--                   repositories/user.repository.ts: signUp, login, getUser, updateUser;
--                   Users/Records is what they take from Prisma and bcrypt, and Users/Passwords
--                   utils/password.ts
--   Rpc             apps/user-service/src/handlers/user.handlers.ts, its subscriptions in Routes
--                   and what becomes of a message in Serving;
--                   apps/api-gateway/src/nats/user-rpc.client.ts, its methods in Client, with
--                   errors/rpc-error.mapper.ts in Mapping; Loopback puts the handlers behind the
--                   methods of the client, and Mirroring is about the two together
--   Gateway         apps/api-gateway/src: the user routes with their middleware and controller;
--                   Gateway/Tokens is utils/jwt.ts, and Gateway/Accounts the routes for sign-up and
--                   log-in, the probes and the error handler; Access and Issuing are about who
--                   reaches an account and with which token; Gateway/App is app.ts with the
--                   routers, Routing, Routers and Serving are about the way of a request, and RequestIds
--                   about its id
--   Dlq             scripts/user-events-dlq.ts: its commands in Dlq/Commands; Inspecting and
--                   Replaying are about what they list and publish, Records about the dead letters
--                   of the consumer as records that can be replayed
--   Processes       libs/messaging/src/connection.ts and the three main.ts: Notifications, Accounts
--                   (the user service) and Front (the gateway), with what the first two share in
--                   Locals; Signals is their main with the signals, Signals/Ending, with Stages
--                   and Killing, is about how it ends; Starting is about the start of the user
--                   service, Closing and Stopping about shutdowns, Probing about the readiness
--                   of the notification service, and Processes/Bootstrap is
--                   scripts/jetstream-bootstrap.ts
--   Environment     the config/env.ts of apps/user-service/src (Accounts),
--                   apps/notification-service/src (Notifications) and apps/api-gateway/src (Front);
--                   Accounts/Building and Notifications/Starting are about what the main.ts make of
--                   a configuration
--   Tests           runs on concrete inputs, and the theorems applied to them
--
-- State and time. A method is a function of the state outside the process (`World`, `Db`,
-- `Broker`, `Net`), which it passes on whether it returns or throws. Times are milliseconds from
-- the epoch as natural numbers: a time before the epoch becomes 0, which no stored time is
-- below. The clock is a part of the state, read where the program reads it. What a `Promise.all`
-- starts together runs in its order. A process lists what it opens and releases, in a log of the
-- model. A timer is a test of the state that says whether it fires first, or, in the relay, an
-- event. A number that the program still has to validate is a `Number`, which may be negative or
-- no integer. A new UUID is an argument.
--
-- Bounds. The only loops that are not over a list are the inner loop of the clean-up, which
-- recurs on the batches that are left of `cleanupMaxBatches`, and that of `inspect`, which
-- recurs on the sequence numbers that are left. The outer loops of the relay never end by
-- themselves; each is modelled by its round, `Relay.run` by the values of the abort signal, and
-- a task of the three by a schedule of their turns and timers; a round is carried out in one
-- turn. The decimal digits of a number recur on fuel one above the number, which is more than
-- its digits.
--
-- Not modelled: logging; the bcrypt, JWT, NATS, Prisma and zod libraries, which are parameters;
-- the configuration of Helmet, CORS and the rate limit, which are libraries of Express (which
-- requests the CORS library answers is a parameter with laws), and the response header with the
-- id of a request; keys that a `.strict()` schema does not know, the schemas being on values of
-- their type, and parameters where the services use them; the HTTP server of the readiness
-- probe; the observers of a NATS connection, which only log; how far a shutdown has come when a
-- second signal of one kind ends the process; and the texts of validation errors.
pub mod Base
pub mod Database
pub mod Contracts
pub mod Outbox
pub mod Messaging
pub mod Relay
pub mod Delivery
pub mod Users
pub mod Rpc
pub mod Gateway
pub mod Dlq
pub mod Processes
pub mod Environment
mod Tests
