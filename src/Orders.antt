-- ===== src/Orders.antt =====
-- order-service: the aggregate, its events, the repository, the use cases, the outbox worker, the
-- consumer of stock results and the gRPC server.
pub mod Domain
pub mod Events
pub mod Store
pub mod Repository
pub mod Usecase
pub mod Consumer
pub mod Worker
pub mod Pages
pub mod Server
pub mod Http
pub mod Tests
