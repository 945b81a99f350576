-- ===== src/Logging.antt =====
-- hw2/pkg/logging: a logger hands each record to its sinks, which filter it by level, format it and
-- append it.
pub mod Record
pub mod Sink
pub mod Logger
pub mod Stages
mod Examples
