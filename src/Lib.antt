-- ===== src/Lib.antt =====
-- Mini-marketplace: the order saga of four Go services over PostgreSQL and Kafka.
--
-- order-service creates an order in the status CREATED, together with an `order.created` event in
-- its outbox table. Its outbox worker publishes the event and moves the order to AWAITING_STOCK.
-- inventory-service consumes the event, reserves the stock of every item or of none, and answers
-- `stock.reserved` or `stock.failed` through an outbox of its own. order-service consumes the
-- answer and moves the order to CONFIRMED or CANCELLED, with another event. notification-service
-- consumes the events of order-service and notifies the customer.
--
-- Base: conditionals, results and transactions, tables as lists of rows with `select`, `update`,
-- `affected` and `first` for the SQL texts, Go's `int64` and `int32`, JSON values, the read
-- loop of a consumer, and in Base/Outbox what the proofs on both outbox workers share. The native
-- numbers carry all arithmetic.
--
-- Orders models order-service/internal:
--   Domain: domain/order.go (NewOrder, TransitionTo, Money); Domain/Total and Domain/Machine hold
--   the proofs on the total and on the state machine.
--   Events: the events of domain/order.go as JSON values. Store: the tables of
--   order-service/migrations, and what a call takes from outside.
--   Repository: repository/postgres/order_repo.go (SaveWithEvent, GetByID, UpdateStatusWithEvent).
--   Pages: ListByCustomer of that file with its cursor, and ListOrders of
--   usecase/order_usecase.go; Pages/Cursor, Pages/Sorting, Pages/Behind, Pages/Bounds and Pages/Walk
--   hold the proofs.
--   Usecase: usecase/order_usecase.go (CreateOrder, GetOrder, UpdateOrderStatus).
--   Consumer: consumer/stock_result_consumer.go. Worker: outbox/worker.go and outbox/publisher.go.
--   Server: delivery/grpc/order_server.go (CreateOrder, GetOrder, ListOrders).
--   Http: delivery/http/order_handler.go.
-- Inventory models inventory-service/internal:
--   Stock: domain/stock.go. Store: the tables of inventory-service/migrations.
--   Repository: repository/postgres/stock_repo.go (ReserveAll, RecordFailure) and domain/event.go.
--   Usecase: usecase/inventory_usecase.go. Consumer: consumer/order_created_consumer.go.
--   Worker: outbox/worker.go and outbox/publisher.go.
--
-- Notification models notification-service/internal: domain/notification.go,
-- repository/postgres/inbox_repo.go, usecase/usecase.go and consumer/order-events-consumer.go.
--
-- Saga puts order-service and inventory-service side by side, with the topics between them as logs
-- of messages: a step relation whose steps are the calls, the handled messages and the batches of
-- the modules above. Answers and Orders are about the reasons of a status (Settled); Lines,
-- Known, Written and Trace about the orders that an event names and what their lines ask for
-- (Reserved, and Conserved for the stock); Placed, Answered and Progress are about a schedule that
-- settles an order. No other writer comes between the read and the write of an `UpdateOrderStatus`
-- there.
--
-- Gateway models api-gateway/internal: GetOrder of delivery/http/order_handler.go, with
-- cache/redis_cache.go, and the HTTP codes of its errors; Requests has CreateOrder and ListOrders.
-- The reply of order-service and the failures of Redis come with each request. What gin reads of a
-- body is a parameter, and the tags of the requests are hypotheses on it; so are gRPC between client
-- and server, and that it brings a reply or breaks the call off. RateLimit has the token
-- bucket of ratelimit/limiter.go and delivery/http/middleware/rate_limit.go, and Middleware the
-- counter of delivery/http/middleware/metrics.go, in the order of cmd/gateway/main.go.
--
-- A function of the source takes the tables and returns its result with the tables after it.
-- What it takes from outside is a `Host`: the clock, fresh ids, the text of a time, which calls
-- of the driver fail, where a loop over rows ends early because the connection is lost, and what
-- a TIMESTAMPTZ column keeps of a time and a UUID column of a text. A failing call may be any
-- one. A transaction works on a copy of the tables that counts when the commit succeeds; a
-- commit that fails has not happened. Other processes write between the read and the write of an
-- attempt of UpdateOrderStatus, as the function `others`. What is published is a log that no
-- rollback takes back.
--
-- The loop of UpdateOrderStatus has the source's three attempts as its fuel, and returns the
-- source's error when they are used up; the other loops run over a list.
--
-- Simplified: a time is a number, and a call reads the clock once; an id that is looked up,
-- compared or listed by is in the text that a UUID column gives back; a status is one of the
-- five constants; a version is a number without the bound of its column; the ids of the item
-- rows, logs, metrics and contexts that are cancelled within a call are left out; rows of one
-- time keep the order of the table, also the rows of a SELECT without ORDER BY; JSON texts are
-- JSON values, whose objects have a key at most once, and a key is matched exactly.
-- Not modelled: the processes' start-up and wiring, generated code, the gRPC client of
-- api-gateway, which only passes calls on, and the interceptor of order-service, which only
-- counts. ratelimit/tocken_bucket.lua is a copy of the script in limiter.go and is not loaded.
pub mod Base
pub mod Gateway
pub mod Inventory
pub mod Notification
pub mod Orders
pub mod Saga
