-- ===== src/Tests.antt =====
-- Concrete players, tables and requests, and the theorems at them. Models no file of the
-- repository.
mod Data
mod Counters
mod Inventory
mod Days
mod Letters
mod Choices
mod Draws
mod Rankings
mod Purchases
mod Tokens
mod Sessions
