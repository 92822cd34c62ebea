-- ===== src/Http.antt =====
-- muduo/net/http: requests, responses, the parser and the server's handlers.
pub mod Tests
pub mod Request
pub mod Response
pub mod Context
pub mod Server
