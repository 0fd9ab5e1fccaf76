-- ===== src/Inventory.antt =====
-- inventory-service: stock, its tables, the reservation, the use case and the
-- consumer of `order.created`.
pub mod Stock
pub mod Store
pub mod Repository
pub mod Usecase
pub mod Consumer
pub mod Worker
mod Tests
