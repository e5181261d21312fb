-- ===== src/Lib.antt =====
-- Polyglot Ticketing: the TypeScript services, and the core of the orders service.
--
-- The system sells tickets. Browsers talk to a REST gateway (apps/api-gateway), which talks gRPC to
-- the identity service (apps/identity) and to services in other languages. When an order is created,
-- the orders service puts an event on JetStream; the expiration service (apps/expiration) consumes
-- it, schedules a job for the expiry of the order, and publishes an event when the job is due.
--
-- Base has the shared helpers: native numbers with Boolean tests, integers, results that may be an
-- error, lists, and the functions of JavaScript's String. Value is a JavaScript value of type
-- `unknown`, which the error handling inspects. Contracts has the enumerations of the protobuf
-- contracts, the statuses of gRPC and the error item. Platform has the third-party objects as
-- interfaces, records of operations with the laws that the code relies on: gRPC metadata, web
-- headers, dates with the doubles that they are made from, the headers of NATS messages, JetStream's managers, buffers, numbers and URLs; and
-- MetricsServer, the function startMetricsServer that each service has. Value/Json is the interface
-- of JSON.
--
-- Gateway, apps/api-gateway/src:
--   Errors: errors/api-error.ts, error-code.ts, grpc-error.ts (isGrpcStatusError is
--     is_grpc_status_error, and so on) and throw-grpc-error.ts (throw_gateway_grpc_error).
--   Errors/Filter: errors/api-error.filter.ts, with catch for ApiErrorFilter.catch.
--   Errors/Validation: errors/validation-error.ts.
--   Identity/Metadata and Identity/Cookie: identity/metadata/*.ts. Identity/AuthService:
--     identity/auth.service.ts. Identity/Session: identity/guards and identity/decorators.
--     Identity/AuthController: identity/auth.controller.ts.
--   Orders, Payments, Tickets: the service and the controller of each; post_order is
--     OrdersController.createOrder, and the other routes are named alike, by method and path.
--   Requests: the bodies of requests as they arrive, with the classes of identity/dtos, orders/dtos,
--     payments/dtos and tickets/dtos (Requests/Dtos), the validation pipe of app/app.bootstrap.ts
--     and the routes behind it (Requests/Routes); class-validator is the interface ClassValidator.
--   Dates: toDate, which two files declare. Protected: the guarded routes together.
--   Metrics: observability/prometheus.ts and the middleware of main.ts.
--   Startup: the settings of app/app.bootstrap.ts and of the modules.
-- A handler returns or throws: it is a Result with the error Thrown. The gRPC clients are records of
-- functions that return a response or throw a value, so that a backend can answer anything.
--
-- Identity, apps/identity/src: Errors (errors/*.ts and the items of identity/mappers/*-errors.ts),
-- Mappers (identity/mappers/*.mapper.ts), RequestHeaders (identity/headers), SessionCookie
-- (identity/session-cookie.ts), Timestamp and Service (identity/identity.service.ts and the
-- validators). Better Auth, the session table and protovalidate are the record IdentityAuthContext.
-- Auth is auth/auth.factory.ts and auth/email.sender.ts, Metrics is observability/prometheus.ts,
-- Migration is migrate.ts and migrate-identity-database.ts, and Startup the gRPC server of
-- app/app.bootstrap.ts. Boundary puts that service behind the gateway's client, with the error as it
-- crosses gRPC; Boundary/Expected has the error items and the codes of Better Auth, written out.
--
-- Expiration, apps/expiration/src/expiration: Handler, Scheduler, Consumer, Processor and DeadLetter
-- model order-created.handler.ts, expiration.scheduler.ts, order-created.consumer.ts,
-- expiration.processor.ts with expiration.publisher.ts, and the parking and replaying of
-- jetstream.service.ts. A computation returns or throws and keeps a log of its effects (Effects); the
-- outcomes of the queue, of the dead letter queue and of the acknowledgements are parameters, so that
-- each call may fail. Consumer/Loop is the loop consume, over the rounds of its reconnects. JetStream
-- has the streams and the consumer of jetstream.service.ts over the interface of JetStream's managers,
-- in which other clients may act at every call; JetStream/Connection is onModuleInit. RedisConfig and
-- ReplayCommand are redis.config.ts and replay-expiration-dlq.ts, and Metrics counts the deliveries and
-- the jobs as observability/prometheus.ts does.
--
-- Expiration/System puts the consumer, the handler, the scheduler, the processor and the publisher
-- together, over BullMQ as the interface QueueApi: a step is the passing of time, a delivery or an
-- attempt at a job that has attempts left, each with any outcome of its calls, among them replies
-- that are lost. A job that is completed or has failed for good has none left; it stays in the queue.
-- System/Timer is what the service promises, without the queue and the messages.
--
-- Orders is apps/orders/internal/order, in Go: order.go, and with Orders/Repository the transactions
-- of postgres_repository.go. Postgres is third-party: a statement is the function on the rows that its
-- text says, and a transaction is one step, at the time of its NOW(). Orders/History has the
-- histories of such steps, in any order, with time passing between them: reservations and
-- cancellations of the gRPC calls, and the events of the other services, with any repetition.
-- Orders/Service is service.go, and Orders/Server the calls of internal/grpc/server.go. The columns of
-- ids have the type UUID: the rows have their canonical texts, and the parameter `cast` is how Postgres
-- reads the text of a request as one. Orders/Repository/Blocking says which order blocks a ticket apart
-- from the code. Boundary/Reservations puts these calls behind the gateway.
--
-- Stress is the script scripts/stress/tickets.js, a client of the tickets API, and Tracing is
-- libs/observability/src/tracing.ts.
--
-- Loops are structural recursion. Consumer.deliver hands a message out again on fuel; a message is
-- acknowledged at its sixth delivery at the latest, so that fuel 6 is enough where the dead letter
-- queue works from then on. on_module_init is a loop without an end, on fuel: its theorem names the
-- fuel for a number of failed rounds. Texts are lists of characters where JavaScript counts UTF-16
-- units; the services cut a text only next to an ASCII character, so that both cut at the same
-- place. Times are whole milliseconds.
--
-- Not modelled: the services in other languages but for the core of the orders service (its consumers
-- and its relay of the outbox are left out, as are ListOrders, the payloads and the logs), generated
-- code but for two enumerations, the wiring of frameworks, the registries of the metrics, the waiting
-- between attempts, and what the stress script logs.
-- The tests of the model are in Tests.
pub mod Base
pub mod Value
pub mod Contracts
pub mod Tracing
pub mod Gateway
pub mod Platform
pub mod Identity
pub mod Expiration
pub mod Boundary
pub mod Orders
pub mod Stress
pub mod Tests
