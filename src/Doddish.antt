-- ===== src/Doddish.antt =====
-- go/internal/_/doddish: the tokens in which identifiers and queries are written.
pub mod Op
pub mod Seq
pub mod Scanner
mod Tests
