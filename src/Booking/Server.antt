-- ===== src/Booking/Server.antt =====
-- The state of one server process of csiebooking/server.c and what it does with a ready connection.
pub mod Replies
pub mod Handlers
