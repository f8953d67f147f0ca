-- ===== src/Tests.antt =====
-- Runs of the modelled code on concrete inputs, and an instance of each statement that has
-- hypotheses.
mod Sample
mod Rooms
mod Signing
mod Transactions
mod Views
mod Protocol
mod Limits
mod Sessions
mod Clients
mod Pages
mod Requests
mod Listings
mod Handshake
mod Connections
mod Interleaved
mod Demos
mod Prints
mod Configured
