-- ===== src/Protocol.antt =====
-- The requests of a SUSE client: lib/hilolay/hilolay_alumnos.c writes them, and the loop of
-- planificacion/suse/suse_scheduler.c reads them.
pub mod Codes
pub mod Decimal
pub mod Client
pub mod Server
pub mod RoundTrip
pub mod Tests
