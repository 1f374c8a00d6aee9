-- ===== src/Startup.antt =====
-- What runs before the first event: the exceptions (exceptions.h), what the program takes from
-- boost and the system, the configuration (CConfiguration.cpp), the Init functions of the server and
-- of its virtual clients, main.cpp, and the
-- Windows service (run_nt_service.cpp).
pub mod Result
pub mod Host
pub mod Passhash
pub mod Config
pub mod Channels
pub mod VirtualClients
pub mod Main
pub mod Initialized
pub mod Service
