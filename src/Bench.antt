-- ===== src/Bench.antt =====
-- main.rs: the benchmark, which fills a map and measures what its operations achieve.
pub mod Config
pub mod Prefill
pub mod Worker
pub mod Sampler
pub mod Main
mod Tests
