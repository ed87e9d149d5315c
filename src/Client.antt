-- ===== src/Client.antt =====
-- src/client/: requests and their replies, the receiver that multiplexes them, and open files.
pub mod Error
pub mod Reply
pub mod Future
pub mod Stop
pub mod Request
pub mod File
pub mod Receiver
pub mod Dir
pub mod Commands
pub mod Connect
