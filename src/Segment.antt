-- ===== src/Segment.antt =====
-- internal/segment: the header of a segment file (header.go), the directory (dir.go) and the segment
-- file itself (segment.go).
pub mod Header
pub mod Name
pub mod Files
pub mod Bases
pub mod Content
mod Tests
pub mod Dir
pub mod Listed
