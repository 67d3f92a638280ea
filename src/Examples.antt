-- ===== src/Examples.antt =====
-- The theorems at concrete inputs, and tests of the definitions.
mod Media
mod Switching
mod Bitrates
mod Reports
mod World
mod Network
mod Rooms
mod Offers
mod Served
mod Wire
mod Meeting
