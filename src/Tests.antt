-- ===== src/Tests.antt =====
-- Examples: each theorem on a concrete input.
mod Fixtures
mod Platforms
mod Servers
mod Clients
mod Queues
mod Browser
mod Demo
mod Threads
mod Handshake
mod Histories
mod Pages
