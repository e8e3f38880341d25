-- ===== src/SmallClient.antt =====
-- src/small_client/client_channel: the pools of clients by address.
pub mod ClientManager
pub mod ClientChannel
pub mod AddrPort
pub mod BaseClient
pub mod RedisClient
pub mod HttpClient
pub mod Tests
