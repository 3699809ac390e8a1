-- ===== src/Examples.antt =====
-- The theorems at concrete inputs, and a `qsort`.
pub mod Sorting
pub mod Data
mod Words
mod Buffers
mod Lists
mod Messages
pub mod Queues
pub mod Uris
pub mod Endpoints
pub mod Requests
pub mod Arrivals
mod Programs
pub mod Servers
pub mod Clients
mod Exchanges
mod Sockets
mod Logs
