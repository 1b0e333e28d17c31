-- ===== src/Server.antt =====
-- The server apps/server: what stands before its handlers, the socket gateway, and the services.
pub mod RateLimiter
pub mod Guards
pub mod Events
pub mod Pages
pub mod RoomTables
pub mod Rooms
pub mod Messages
pub mod Accounts
pub mod Auth
pub mod Agents
pub mod Tasks
