-- ===== src/Sql.antt =====
-- Reading SQL dumps: the statement splitter and its tagged variant for COPY blocks.
pub mod Splitter
pub mod Tagged
