-- ===== src/Archive.antt =====
-- internal/scanner/archive.go: the scan of ZIP, TAR and gzip archives under limits on the bytes that
-- are decompressed, the entries and the nesting depth.
pub mod Budget
pub mod Format
pub mod Outcomes
pub mod Zip
pub mod Scan
mod Tests
