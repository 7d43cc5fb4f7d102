-- ===== src/Tests.antt =====
-- The theorems applied to concrete inputs, with the data that they share.
mod Fixtures
mod Domain
mod Stored
mod Administration
mod Delivery
mod Intake
mod Starting
