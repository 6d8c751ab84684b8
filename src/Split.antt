-- ===== src/Split.antt =====
-- transport/split: a writer that cuts the stream at the points that an iterator gives.
pub mod Iterator
pub mod Writer
pub mod Dialer
