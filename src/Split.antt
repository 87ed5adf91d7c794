-- ===== src/Split.antt =====
-- Package intra/split: connections that split the first segment they send.
pub mod Hello
pub mod Copy
pub mod Splitter
pub mod Retrier
