-- ===== src/Tests.antt =====
-- The theorems at concrete inputs, by the part of the program that they are about.
mod Fixtures
mod Archive
mod Synced
mod Rounds
mod Search
mod Composed
mod Chat
mod Routes
mod Stores
mod Texts
mod Offers
mod Api
