-- ===== src/Bench.antt =====
-- src/benchmarks: the threads that run a benchmark, over any platform. A thread is a function of its
-- configuration and of the replies that the platform gives, which may depend on all it was asked.
pub mod World
pub mod Loop
pub mod Trace
pub mod Thread
pub mod Quiet
pub mod Isolation
pub mod MapUnmap
pub mod Protect
pub mod Elevate
pub mod Pages
pub mod MapPages
pub mod TlbShoot
mod Tests
