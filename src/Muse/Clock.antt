-- ===== src/Muse/Clock.antt =====
-- clockModif and increaseClockPointer of memoria/muse/segments.c: the victim of a page
-- replacement. `none` is a read through the NULL that list_get gives outside the list.
pub mod Ring
pub mod Passes
pub mod Search
pub mod Clear
pub mod Victim
