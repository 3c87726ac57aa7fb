-- ===== src/Tests.antt =====
-- Runs of the model on small inputs, and each theorem at an input that meets its hypotheses.
pub mod Buffers
pub mod Streams
pub mod Names
pub mod Channels
pub mod Logins
pub mod Keys
pub mod Hosts
pub mod Programs
pub mod Terminals
pub mod Exchanges
pub mod Macs
pub mod Openings
pub mod Loops
pub mod Flushes
pub mod Frames
