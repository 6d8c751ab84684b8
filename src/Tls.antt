-- ===== src/Tls.antt =====
-- transport/tlsfrag: writers that split the first TLS Client Hello record into two records.
pub mod Header
pub mod Fragment
pub mod Buffer
pub mod HelloWriter
pub mod LenWriter
pub mod FixedLen
