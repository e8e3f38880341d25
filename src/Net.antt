-- ===== src/Net.antt =====
-- src/net: connections on the event loop.
pub mod Tests
pub mod PollerTests
pub mod ClientTests
pub mod Asyncer
pub mod Buffer
pub mod Socket
pub mod TcpConnection
pub mod CoTcpConnection
pub mod Connector
pub mod Client
pub mod ClientPool
pub mod Acceptor
pub mod Server
pub mod Event
pub mod AsyncerPoller
pub mod TimerPoller
pub mod Epoller
pub mod Timer
pub mod EventLoop
