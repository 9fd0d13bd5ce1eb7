-- ===== src/Bridge/Tests.antt =====
-- Runs of the bridge, and its theorems at concrete inputs.
mod Bidding
mod Clients
