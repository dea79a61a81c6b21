-- ===== src/Scan.antt =====
-- src/scan.rs: bounded flatbed scan jobs.
pub mod Window
pub mod Reply
pub mod Band
pub mod Diagnostics
pub mod Machine
pub mod Lives
pub mod Exchange
pub mod Drain
pub mod Job
