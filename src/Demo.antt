-- ===== src/Demo.antt =====
-- demo: the client that sends pings and the server that answers them.
pub mod App
pub mod Exchange
pub mod Reload
pub mod Stage
pub mod Loop
pub mod Host
