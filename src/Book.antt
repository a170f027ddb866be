-- ===== src/Book.antt =====
-- crates/market-engine/src/book: the order books and the engine that owns them.
pub mod Order
pub mod Engine
