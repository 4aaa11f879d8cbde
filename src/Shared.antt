-- ===== src/Shared.antt =====
-- shared/src: the data types and the logic that the client and the server crates share.
pub mod Bytes
pub mod Reader
pub mod Reference
pub mod Ports
pub mod Native
pub mod Web
pub mod Miniquad
pub mod Config
pub mod World
pub mod Conditioner
pub mod Heap
pub mod TimeQueue
