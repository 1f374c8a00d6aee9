-- ===== src/Server.antt =====
-- CIRCServer.cpp. Each message handler takes the sender and the parameters; what it does to the
-- server is a function of the state, in which `s ▸ f` is one call after another.
pub mod Membership
pub mod Connection
pub mod Rooms
pub mod Users
pub mod Talk
