-- ===== src/Lib.antt =====
-- locomatch: three servers of an operating systems course, and the libraries that talk to them.
-- SUSE (planificacion/suse) schedules the threads of client programs, MUSE (memoria/muse) shares
-- paged memory, SAC (fileSystem/sac) serves files. A program reaches SUSE through lib/hilolay,
-- which sends requests over lib/sockets.
--
-- Sockets (lib/sockets/sockets.c, sockets.h)
--   Bytes is an int in memory, Packet is t_paquete with agregar_a_paquete and serializar_paquete,
--   Channel is send and receive. An int is its bit pattern, a number below 2 ^ 32, in four bytes
--   with the least significant first. A socket is the bytes that still arrive before the peer
--   closes. What malloc and uninitialised variables hold is a parameter (Memory). The loop of
--   recibir_paquete has one more turn of fuel than the buffer has bytes.
-- Protocol (lib/hilolay/hilolay_alumnos.c, lib/sockets/codigos.h, planificacion/suse)
--   Codes has the operation codes and the requests, Client what each call of the library sends
--   and how it reads the answer, Server how schedule_short_term reads a request and what
--   notify_program answers. string_itoa and atoi are a parameter with their laws (Decimal).
-- Suse (planificacion/suse/suse_scheduler.c, suse_scheduler.h)
--   State has the structs and globals, one record with heaps for t_tcb and t_program. A function
--   of the scheduler takes the state and ends (done), stands in sem_wait or pthread_mutex_lock
--   (waits, with the state around it), reads NULL or a dangling pointer (fault), or has no fuel
--   left for a loop (spins): Monad. Timing has the bursts and estimates, Lookup the searches,
--   Moves move_tcb_to and what it calls, Create the constructors, Wakeup, Semaphores, Join and
--   Schedule the requests, Turns one turn of schedule_long_term and of schedule_short_term. Each
--   turn is one step; the steps of several programs follow each other in any order. Keeps says
--   what every step keeps, given rules for the elementary effects; Reach is the sequences of
--   turns; Multiprog is the degree of multiprogramming, Balanced the semaphores, Shortest the
--   choice of the next thread, Removal the lists of threads, Waking the loop of wakeup_threads
--   (Moved a move from BLOCKED to READY, Listed the lists around a thread, Turn and Step one turn,
--   Loop and Woken the whole). Metrics has log_metrics and what it
--   calls, a report being the list of its lines (Counts the lists it goes through, Reads the steps
--   that only read, Threads, Report and Logged the parts of a report). Destroy has destroy_program and
--   what it calls: free takes a pointer out of the heap (Filter one list, Gone, Loop and Freed the
--   threads that are freed twice). Config has planificacion/suse/suse.c: cargar_config, the state
--   that SUSE starts in, the loops that accept clients and log the metrics, and the console (Loaded
--   and Names the configuration, System the scheduler from its configuration on, Console). The file
--   as the commons library reads it and the lines of readline are parameters.
--   A t_list is a sequence: list_get outside it is NULL, list_remove at -1 a fault. Floats are
--   abstract, with the laws of < (Floats), and gettimeofday is a parameter (Env). malloc and
--   pthread_create succeed; sem_init fails for a negative value, and what its semaphore then gives is
--   a parameter. clientes_mutex is taken and released inside the lookups and left out.
--   The fuel of a turn bounds the jumps back to `start:` in schedule_next_for and suse_join, which
--   may turn for ever; the loops over lists get one more turn than the list is long. The console
--   has as many turns as its fuel says, and any number above the first line "salir" is enough.
-- Muse (memoria/muse/segments.c, segments.h, lib/libMUSE/libmuse.c)
--   Frames is the table of frames, Clock the replacement clockModif: Ring is the movement of the
--   pointer, Passes the code, Search and Clear what the passes do, Victim which frame is chosen.
--   A loop over the frames has as many turns as cant_frames. Segments has the page_t and segment_t
--   with setAFrame and setNewPage (Taken), searchPageFromFrame (Searched), the search for room (Room)
--   and createSegment (Creation); `none` is a read through NULL. SEGMENT_TABLE is a parameter, and so
--   are the texts that string_itoa gives without its argument. Requests has the calls of libmuse.c, with the values of their
--   packets (Values), the bytes of the packets (Framed) and how they are read (Received); that they
--   are sent and answered over a connection is in Sockets, their numbers are texts as in Protocol.
-- Sac (fileSystem/sac)
--   The server is sac_servidor/sac_servidor.c: OpenedFiles is the table of opened files, a list of
--   its entries; Blocks the bitmap with find_free_block and set_block_as_occupied; Disk struct
--   sac_file_t and its place on the disk; Lookup parse_path, find_node and search_for_file (Climbing
--   the loop over the parents, Table the loop over the node table, Found the search); Server the
--   handlers of requests, with Read, Write and Create for the longer ones, and what is proved of
--   them in Opening, Loops, Reading, OpenRead, Writing and Creation; Format the geometry and the
--   formatting of a disk. Parser is parse_input of sac_servidor/parser.c, with what every message
--   keeps (Kept), messages one after the other (Served) and those that no handler gets (Refused). Client has the
--   operations of sac_cli/sac_cli.c: Words are the texts that a message can carry, RoundTrip a
--   message from the client to the handler, OpenRead the messages that open and read a file, Stat an
--   answer to getattr back to the client.
--   The disk is its bytes, and a text its characters without the zero. A `none` is undefined
--   behaviour or the end of the disk within a read; files open always. string_split, the bit arrays
--   and string_itoa, for sprintf, are parameters with their laws, and so are the time and what
--   memory holds before it is written (Entorno). An int holds a pointer, and the numbers in requests
--   are not negative. The loop over the parents of a node gets one more turn than the path has
--   components, the loops over an offset as many as the offset, the loop of action_write one more
--   than the bytes to write, and the loops over an array or an area as many as it has entries.
-- Prelude has the names, tests, lists and integers that all of them share.
--
-- Not modelled: a waiting thread's resumption, logs other than the metrics, the release of memory
-- at exit (destroy_lists), sockets and the accept loop of SAC, which are I/O; in MUSE muse.c, which
-- does not compile, the address of a page in memory and the setting up of the memory; in SAC what
-- action_mknod and action_mkdir do behind the fseek on a node, which is undefined, a disk of which
-- format_disk places a part in front of the start, and functions without a caller.
pub mod Prelude
pub mod Sockets
pub mod Protocol
pub mod Muse
pub mod Sac
pub mod Suse
