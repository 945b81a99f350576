-- ===== src/Messaging.antt =====
-- The messaging server of semestral (semestral/internal/messaging): its database with the SQL
-- statements, the repository's transactions, the gRPC handlers and the broker of live sessions.
pub mod Database
pub mod Repository
pub mod Handler
pub mod Service
pub mod Requests
pub mod Broker
pub mod Stream
pub mod Examples
