-- ===== src/Curve.antt =====
-- Revenue curve pricing, contracts/revenue-curve/src/lib.rs: an interest rate from an attested revenue
-- and an anomaly score. The attestation contract's answers are a parameter.
mod Types
mod Calls
mod Rate
mod Histories
mod Price
mod Examples
unfoldable pub use Types.*
unfoldable pub use Calls.*
