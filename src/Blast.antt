-- ===== src/Blast.antt =====
-- internal/blast: the HTTP/3 load harness.
pub mod ZeroRtt
pub mod Spec
pub mod Summary
pub mod Hist
pub mod CfCode
pub mod Recorder
pub mod Request
pub mod Load
pub mod Config
pub mod Options
pub mod Main
pub mod Transport
mod Tests
