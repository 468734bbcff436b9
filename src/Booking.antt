-- ===== src/Booking.antt =====
-- csiebooking/server.c, built as a read server and as a write server.
pub mod Connection
pub mod Command
pub mod Kernel
pub mod Server
pub mod Locks
pub mod System
pub mod Update
mod Tests
