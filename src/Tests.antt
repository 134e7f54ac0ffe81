-- ===== src/Tests.antt =====
-- The theorems at concrete inputs, with a database in memory.
mod Memory
mod Stores
mod Api
mod Messaging
mod Domain
mod Votes
mod Histories
mod Rows
mod Counters
mod Deletions
mod EndToEnd
mod Subscriptions
mod Deployment
mod Requests
mod Interleavings
