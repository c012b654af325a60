-- ===== src/Berry.antt =====
-- main/berry_runtime.c: the log of the Berry scripts.
pub mod Log
mod Tests
