-- ===== src/Server.antt =====
-- src/rest/server.c: what is answered to a request.
pub mod Uri
pub mod Rest
pub mod DataServer
mod Tests
