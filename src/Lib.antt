-- ===== src/Lib.antt =====
-- mini_ftpd is an FTP server of three kinds of process. `main` (main.cpp) accepts clients, counts
-- them (connection_limit.cpp) and forks a child for each. The child forks once more
-- (ftp_protocol.cpp): the ftp process reads commands from the client (session.cpp,
-- socket/block_socket.cpp) and serves them from a table; the nobody process opens the data
-- connections for it, over a socket pair. config/config.cpp reads the limits from a file.
--
-- The files, each beside its child modules:
--   Prelude: Boolean tests, lists over the native numbers, integers.
--   Text: what the sources use of C strings and of std::istream (Text/Stream), and decimal printing.
--   Session: session.h and session.cpp. Session/Defs is `struct Session`, Session/Parse is
--     `parse_command`, Session/Port is `get_port_addr`, Session/Split is `split`.
--   Socket: `read_n`, `write_n`, `recv_peek`, `readline`, and (Socket/Message) `send_char`,
--     `get_char`, `send_buf`, `get_int` and `recv_buf` of socket/block_socket.cpp, over a descriptor
--     (Socket/Channel) whose calls are parameters. `IsReliable` says what read(2), recv(2) and
--     write(2) document of a descriptor that does not fail.
--   Program: programs that read an environment and change a state, with rules for what they bring
--     about (Program/Triple) and for that they end (Program/Settles). Ftp and System are both
--     programs in this sense.
--   System: the functions that wrap system calls. System/Calls has the calls, System/Retry the loops
--     around a call that EINTR breaks off; System/Timeout and System/Create are the waits and the
--     creation of sockets of socket/block_socket.cpp, System/Ipc is ipc/socket_ipc.cpp, System/Nobody
--     the nobody process of ftp_protocol.cpp with `create_nobody_process`, System/Speed the speed
--     limit of session.cpp with `sleep_for_seconds`. System/Keeps has rules for what a program keeps of its
--     log, and System/Nobody/Gate is about the rights of the nobody process. System/View looks at the
--     log of a process; System/Held is the view of its descriptors.
--   Handover: what the ftp process and the nobody process say to each other. Handover/Spec is the
--     protocol, a data type of exchanges; Handover/Wire to Handover/Served are about the nobody
--     process, Handover/Client and Handover/Asked about `establish_transfer`, and Handover/Agreement
--     puts them together.
--   File: file/file_utility.cpp: the permission text (File/Perm), both listings (File/Defs) and the
--     locks (File/Lock).
--   Config: config/config.h and config/config.cpp.
--   ConnectionLimit: connection_limit.cpp (ConnectionLimit/Defs), and the loop of main.cpp with
--     `sigchld_handler` as steps between states of the process (ConnectionLimit/Master).
--   Main: main.cpp as it is written: `main`, `sigchld_handler` and the child up to `start_ftp_service`
--     (Main/Defs), with `start_ftp_service` up to its fork. Main/Children are the children of a process by
--     its log; Main/Follows to Main/Refines relate `main` to ConnectionLimit/Master, and Main/Served the
--     child.
--   Ftp: the ftp process of ftp_protocol.cpp, with `Session::reset_data_fd`, `set_permissions` of
--     process/process_utility.cpp and `activate_SIGURG`. A handler is a program over the calls it
--     makes (Ftp/Proc): each call leaves an event in the log, and an environment answers it from the
--     events so far, so that it stands for the client, the nobody process, the kernel and the
--     interruptions. Ftp/Keeps, Ftp/Triple, Ftp/Ends and Ftp/View are rules for programs. Ftp/Gate is
--     about the login, Ftp/Connection, Ftp/Drops and Ftp/Closing about the data connection behind a
--     transfer, Ftp/Finishes about the
--     end of each command, Ftp/Requests about downloads, Ftp/Stored, Ftp/Integrity and Ftp/Receive about
--     the bytes of uploads, Ftp/Disk, Ftp/Contents and Ftp/Leaves about the file they leave, and
--     Ftp/PasvReply about the reply to PASV.
--   Tests: runs at concrete inputs.
--
-- Correspondence. A descriptor or user id of -1 is `none`. Strings are lists of bytes. An uninitialised
-- array is an argument. `fork` is a call like others: where it gives 0, the run is that of the
-- child from there on. `exit`, an uncaught exception and undefined behaviour are ways for a program to
-- end. unordered_map is a function into Option. `unsigned` wraps at 2^32 and `size_t` at 2^64.
--
-- Bounds. The loops of `read_n`, `write_n`, `recv_peek` and `readline` run on fuel, and more than
-- the bytes wanted and the interruptions to come is enough; `split` and the loop of RETR take
-- theirs from the length of what they work on. The loop of an upload and the loop of the ftp
-- process end when the client ends them, and that of `main` never does: a bound on the rounds is an
-- argument. The SIGCHLD handler takes one round for each event so far, as each child has one. Where the client
-- stops once the log has `n` events, more rounds than `n` are enough for an upload; what is said of
-- the loop of the ftp process holds for each bound. Loops around a call that a signal may interrupt
-- run on rounds, one for each interruption: where no call is interrupted any more once the log has
-- `n` events, more rounds than `n` are enough.
--
-- Not modelled: the arithmetic of `double`, which is a parameter whose casts may be undefined; the
-- reading of the two bytes of the port in PASV and, on the side of the nobody process, the bytes of
-- addresses and ports on the socket pair, which are one call each there. The functions of System
-- and File that the ftp process uses are calls of Ftp/Proc, which its environment answers. SIGURG is
-- taken where a blocking call of a transfer loop returns, SIGALRM where a command is awaited,
-- and SIGCHLD behind `accept`, behind `fork` in the parent and behind `close`.
-- Messages to stderr are left out, but for the text of `print_config`.
pub mod Prelude
pub mod Text
pub mod Session
pub mod Socket
pub mod Config
pub mod ConnectionLimit
pub mod Program
pub mod System
pub mod File
pub mod Ftp
pub mod Handover
pub mod Main
pub mod Tests
