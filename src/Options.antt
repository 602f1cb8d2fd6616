-- ===== src/Options.antt =====
-- The values of the command line: the flags of main.go and what a certificate must satisfy to be
-- shown. White space, letters and prefixes are those of ASCII text.
pub mod Strings
pub mod Flags
pub mod Hostname
pub mod Filter
pub mod Roots
mod Tests
