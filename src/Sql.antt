-- ===== src/Sql.antt =====
-- libkycore/SqlGenius.h: the generator of SQL statements, and the order of their parameters.
pub mod Piece
pub mod Params
pub mod Model
pub mod Write
pub mod Spaced
pub mod Texts
pub mod Writes
pub mod Columns
pub mod Filter
pub mod Filters
pub mod Collide
pub mod Select
pub mod Joins
pub mod Tables
pub mod JoinLoop
pub mod Used
pub mod Joined
pub mod ById
mod Tests
