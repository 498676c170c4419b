-- ===== src/Lib.antt =====
-- A central index of shared files and the peers that exchange them, for Windows. The server
-- (P2PFileServer.cpp) keeps a table of files in SQLite; a peer connects, says CONNECT, and then ADD,
-- DELETE, LIST, REQUEST and QUIT, each a text of one message. A peer (P2PPeer) also listens itself, and
-- sends a file to another peer that asks for it by its path.
--
-- Paths are given below 项目代码/ of the repository. The server, in
-- P2PFileServer/P2PFileServer/P2PFileServer.cpp, is modelled under Server:
-- - Server/Messages: recv_msg, clean_string, validate_int. Messages/Reading has their laws.
-- - Server/Sqlite: SQLite as a parameter, a record of sqlite3_prepare_v2, sqlite3_step, the columns and
--   sqlite3_errmsg. What the session relies on is the record FilesTable of Session/Table: what the
--   statements of the server do to rows, for words without a quote, where SQLite reports them done and
--   where it does not.
-- - Server/Queries, Server/Commands, Server/Replies: the texts of p2p, how it reads a line, and the
--   lines that it sends, in the bytes of the source file.
-- - Server/Session: p2p, with the handshake, the loop over commands and the farewell. Its laws are in
--   Session/Adding, Deleting, Listing, Isolation (by Session/Others), Departure and Ending, and in
--   Session/Fitting (by Session/Lengths); Session/Turns has several clients at one table, one line at
--   a time. Session/Stages is p2p as a machine from one recv to the next, and Session/Counting what
--   its commands do to the count.
-- - Server/Options and Server/Startup: main up to the start of the threads. Options/Limits joins them.
-- - Server/Listen: tcp_listen and the jobs of the pool, as events in any order. Listen/Handing has the
--   laws of who is served.
-- - Server/System: the listener, the jobs and all sessions over one database and one count, as acts in
--   any order; the acts are the events of Listen and the steps of Session/Stages. System/Counting and
--   System/Ownership (with Reading, Leaving and Runs below it) have laws of every run, System/Known the
--   lists of clients, System/Lifetime the runs from main's start, System/Starvation clients that go
--   without a word, System/Faultless the acts that no fault ends, by the lengths of Session/Fitting
--   and Queries/Lengths, and System/Endurance whole runs of them, by those of Index/Sizes and the
--   addresses of System/Addresses.
-- - Server/Index: the abstract index of files, a quotient of the tables by their order. Index/Asking and
--   Index/Refinement relate the sessions and the system to it, Index/History is about whole runs,
--   Index/Projection about one client's part of them, and Index/Order about the order of the clients'
--   lines.
-- - Server/Count: client_count in two halves, a load and a store, by threads that may overlap.
-- - Server/Status: print_stats. Server/Console: the commands of the console, and shutdown_handler.
-- - Server/Main: main as a whole, with its console, the statistics in it, and the signals.
--   Main/Stopping has how the console is left, and how not.
-- - Server/Program: the running system, the console and the signals as one program, moment by moment,
--   up to the first shutdown_handler. Program/Statistics is about what the console shows of it.
-- A peer, in P2PPeer/P2PPeer, is modelled under Peer:
-- - Peer/Sha1: HashSH1.h and HashSH1.cpp. Sha1/Standard is the standard's description, with
--   constants of its own, but for the order of the bytes in a word, where it follows blk0; and
--   Sha1/Functions, Bytes, Schedule, Blocks, Holding, Streaming and Padding lead from the code to it.
-- - Peer/FileHash: getFileHash, and in FileHash/Digits the form of its text. Peer/Files: the rest of
--   FileManage.cpp. Files/Transfer has the laws.
-- - Peer/Client and Peer/Download: PeerClient.cpp. Client/Shown joins the server's LIST to the peer.
-- - Peer/Sharing: addFile with the hash of the file, up to the row at the server.
-- - Peer/Menu: main of P2PPeer.cpp, and in Menu/Login its calls as the server's sessions hear them.
-- - Peer/Serving: PeerServer.cpp, with its table of sockets in Serving/Table, the length of a round in
--   Serving/Rounds, what the sockets have to say in Serving/News, what a round does about it in
--   Serving/Sweep and Dues, the outer loop and the file sent for a message in Serving/Answering, and
--   its start in Serving/Opening. Peer/Winsock: what the constructors do with the library of sockets.
-- - Peer/Passing and Peer/Network: a file from the disk of one peer to that of another, and the server
--   with several peers.
-- Clib has the C string calls, Net what recv returns, Outcome the results of code that can go wrong,
-- Bits and Prelude what the parts share, and Tests the theorems at concrete inputs.
--
-- A path is opened by fopen in readFile and getFileHash, by its bytes, and by CreateFile in sendFile and
-- recvFile, by the wide characters that mbstowcs makes of the bytes in the locale "C", one for each. A
-- disk (Disk of Peer/Files) tells the two apart, since they are the same file for sure for ASCII alone.
--
-- Sockets are lists of what recv returns, in order; where such a list ends, the code waits, and the
-- result says so. A write over a buffer, a NULL that is read and a call that Microsoft's library ends
-- the program for are faults, values of their own. Numbers of 32 bits wrap where the source's do.
--
-- Fuel: the loop over rows takes as many rounds as its fuel, and the laws of LIST and REQUEST give it
-- one more than there are rows; the loop of SHA1Final has 64 rounds, and at most 63 zeros are due; the
-- loop over whole blocks has as many as there are bytes, and getFileHash one more; the round of the
-- peer's server takes two more than there are sockets (66 for any table), since each step goes on by a
-- place or removes a socket, save at the first place. Where fuel runs out the result is the fault
-- `endless` or, in the hash, a value that the laws rule out.
--
-- Not modelled: thpool.c (a copy of another library, whose choice of a time to start a job is an
-- event), sqlite3.h, Thread.h and Thread.cpp (all comments), what is printed (but the statistics),
-- sleeping, the clock (its reading is an input of the console), whether the sessions at work end while
-- thpool_destroy waits for them and the port that bind assigns for 0 (parameters of main), the server's start of Winsock, whose
-- result it does not look at, and the unit tests of the peer. An act of a session is one recv with the
-- handling of what it brings, in which c_count is changed at once; Server/Count has what becomes of it
-- when threads do so at the same time.
mod Prelude
mod Bits
pub mod Clib
pub mod Outcome
pub mod Net
pub mod Server
pub mod Peer
mod Tests
