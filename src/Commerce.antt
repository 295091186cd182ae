-- ===== src/Commerce.antt =====
-- The pure decision modules of src/knarr/commerce: pricing, prepaid deduction, the admission gate,
-- the pipeline that joins them, and the settlement engine.
pub mod Float
pub mod Tenths
pub mod Prepaid
pub mod Gate
pub mod Pricing
pub mod Pipeline
pub mod Settlement
pub mod Admission
mod Tests
