-- ===== src/Muse.antt =====
-- memoria/muse/segments.c: the frame table, the clock and the segments of MUSE; and
-- lib/libMUSE/libmuse.c, its client library.
pub mod Frames
pub mod Clock
pub mod Segments
pub mod Requests
mod Tests
