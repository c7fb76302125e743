-- ===== src/Lib.antt =====
-- knockd: a port knocking daemon in C.
--
-- The program runs two threads. The capture thread reads raw packets and passes those aimed at a
-- knock port to a bounded queue; the processor thread takes them from there, runs the state machine
-- that follows each client through the knock sequence, opens the firewall for a client that completes
-- it, and closes it again when the grant expires. The configuration is read and validated before
-- either starts, and is not written afterwards.
--
-- The parts, with the code that each models:
-- Config is src/config.c and include/config.h. The globals are the record Config, config_validate is
--   validate; Settings is what the threads read of it. An int is a signed integer of Prelude/Int, a port
--   a natural number. Config/Load is config_load and the parsing helpers, which keep their names, on
--   the bytes of the file; Config/Text has what they use of the C library: strtol, strtok, strchr and
--   fgets with its buffer of 256 bytes. Config/Written and Config/Spelling write a file from what it
--   is to say, and have no counterpart in the code. Config/Mode is
--   warn_if_world_readable, on what fstat answers.
-- Sniffer is src/sniffer.c. sniffer_next_knock is next_knock on the list of what recvfrom returns,
--   find_ip_offset keeps its name, and the TCP and UDP branches are tcp_port and udp_port. A packet is
--   the list of the bytes that recvfrom wrote, and a read outside of it is the result `outside`. The
--   layouts of the link, IP, TCP and UDP headers are those of the protocols; the source address is
--   read as a little-endian host reads it. Sniffer/Frame describes packets without the code.
--   Sniffer/Socket is sniffer_init and sniffer_close; what socket, setsockopt and if_nametoindex answer
--   is a Net.
-- Queue is src/packet_queue.c. pktqueue_init, _push, _pop, _shutdown and _wait are init, push, pop,
--   shutdown and wait; the mutex makes each of them one step. pktqueue_wait goes through a list of
--   wake-ups, each with what the other thread did before it.
-- Knocker is src/knocker.c. The table is a list of entries of MAX_CLIENTS; a pointer to an entry is
--   its index. knocker_process is process_locked, knocker_cleanup_stale is cleanup_stale, and
--   knocker_init and knocker_shutdown are init and shutdown.
-- Firewall is src/firewall.c. firewall_init, _open, _close, _tick and _shutdown are init, open_grant,
--   close_grant, tick and shutdown. What iptables and inet_ntop answer is the parameter Env; the state
--   keeps every iptables command that was run, with its success. Firewall/Child is the wait for the
--   child process. Firewall/Chain has the rules that iptables keeps in the KNOCKD chain: a function of
--   the runs of iptables, a parameter, with the laws IsChain that say what each command is documented
--   to do; Firewall/Ending follows one grant to its end.
-- Daemon is the processor of src/main.c. process_event and run_processor keep their names; start is
--   the startup of the two tables. run_processor is a function of what arrives in each turn, which is
--   the view of one thread.
-- Daemon/Threads has both threads and the signal handler as a step relation on what they share, the
--   queue, g_running and the place where each thread stands; capture_thread is CaptureStep,
--   run_processor is ProcessorStep on the same process_event, tick and sweep, with pktqueue_shutdown
--   and pthread_join of main behind it. A turn of the loop in sniffer_next_knock, on what one
--   recvfrom returns, is a step: the loop goes on where next_knock is `blocked` on it. Its field
--   `reported` is no variable of the program: it lists what the sniffer reported so far. Daemon/Line
--   says what lies on the way from the sniffer to the processor, Daemon/Progress reads off an
--   execution of the two threads the turns of run_processor, on which Daemon/Turns rests, and
--   Daemon/Realized plays turns by steps of the threads; Main/Runs puts main around them.
-- Main is main of src/main.c, from the arguments to the exit code: Main/Args is the argument loop,
--   configure what follows it, launch the startup from knocker_init on, capture the rest, and
--   cleanup what stands behind that label from sniffer_close on. Each goto is a call of cleanup with
--   the exit code at that point. What the operating system answers, files and calloc included, is a
--   World. Main/Banner is format_knock_sequence and print_banner, Main/Usage is print_usage and what
--   main prints before it sets up the logger.
-- Logger is src/logger.c and include/logger.h; log_msg takes the message as printf formats it, and
--   returns what it puts out and where. Its state is g_use_syslog and whether syslog is connected.
-- Prelude passes on the names of the libraries and has what the parts share: Boolean tests, lists
-- as C arrays, integers. In each part the module of its name has the definitions, the modules with
-- Tests in their names have runs and the theorems at concrete inputs, and the others the proofs.
--
-- Times are natural numbers of seconds, given as an argument for each call of time() and not
-- assumed to go up unless a theorem says so. A signed comparison of a difference, now - last > w,
-- is written last + w < now. The unsigned counters wrap at their width. Each loop is recursion on a
-- table, on a packet or on the list of what a call returns; only print_digits of Main/Banner runs
-- on a number of steps, the ten digits that an unsigned int has at most.
--
-- Not modelled: log lines at the places where they are written, except for the warning about the mode
-- of the configuration file; the calls of sigaction and strerror, which are settings or texts of the
-- operating system; pktqueue_destroy, which only releases a condition variable; the shell
-- client, the C tests and the build files.
pub mod Prelude
pub mod Settings
pub mod Config
pub mod Queue
pub mod Knocker
pub mod Firewall
pub mod Sniffer
pub mod Daemon
pub mod Main
pub mod Logger
