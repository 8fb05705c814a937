-- ===== src/Security.antt =====
-- Packet integrity, cookies, rate limiting, connect tokens and encryption, gbnet/src/security.rs.
-- A clock is an argument: `now` in the unit of the durations, or a number of seconds.
pub mod Crc
pub mod Cookie
pub mod RateLimit
pub mod Token
pub mod Encryption
mod Tests
