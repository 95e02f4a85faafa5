-- ===== src/Domain.antt =====
-- internal/domain: the values that the parts of the screener exchange, and the operator's
-- configuration.
pub mod Market
pub mod Signal
pub mod Config
pub mod User
