-- ===== src/Shop.antt =====
-- The shop: internal/model/order.go, internal/repository/shop_repo.go,
-- internal/service/shop/shop_service.go and the shop counters of internal/cache/manager.go.
pub mod Model
pub mod Stock
pub mod Counter
pub mod Errors
pub mod Redeem
pub mod Flash
pub mod Samples
mod Tests
