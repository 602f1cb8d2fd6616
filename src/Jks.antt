-- ===== src/Jks.antt =====
-- internal/scanner/jks.go: the Java keystore parser. `Reader` is `javaKeystoreReader`,
-- `ModifiedUtf8` is `decodeJavaModifiedUTF8`, and `Parse` is `parseJavaKeystore`.
pub mod Reader
pub mod ModifiedUtf8
pub mod Parse
mod Tests
