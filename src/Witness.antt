-- ===== src/Witness.antt =====
-- The theorems on concrete values.
mod Delivery
mod Filters
mod Breaker
mod Keys
mod Audit
mod Plugin
mod Store
mod Chain
mod Retried
mod System
