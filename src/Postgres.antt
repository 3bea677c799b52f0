-- ===== src/Postgres.antt =====
-- The analyzer of PostgreSQL migrations (internal/analyzer/postgres). Its SQL parser, which is
-- generated code behind an interface, is a parameter.
pub mod Statement
pub mod Width
pub mod Schema
pub mod Classification
pub mod Rules
pub mod Table
pub mod Sound
pub mod Normal
pub mod Migration
pub mod Analyze
pub mod Down
pub mod Plug
pub mod Flags
pub mod Tracks
pub mod Risk
pub mod Danger
pub mod Complete
pub mod Pairs
pub mod Levels
pub mod Bounded
pub mod Digits
pub mod Complexity
pub mod Guard
