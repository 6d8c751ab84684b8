-- ===== src/Smart.antt =====
-- x/smart: the cache of the smart dialer's resolver.
pub mod Cache
pub mod Front
pub mod Racer
pub mod Strategy
