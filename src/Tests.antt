-- ===== src/Tests.antt =====
-- Concrete databases and requests, and the theorems of the other modules at them.
mod Samples
mod StoreTests
mod Socks5Tests
mod GatewayTests
mod AuthTests
mod ProxyTests
mod SchedulerTests
mod StreamTests
mod TranslateTests
mod UsageTests
mod TransferTests
mod AdminTests
