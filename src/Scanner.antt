-- ===== src/Scanner.antt =====
-- What a scan makes of one file's bytes and how it reports: internal/scanner/scanner.go.
pub mod Collect
pub mod Content
pub mod Usage
pub mod Report
pub mod Validity
pub mod Paths
pub mod File
pub mod Pem
pub mod Walk
mod Tests
