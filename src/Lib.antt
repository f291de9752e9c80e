-- ===== src/Lib.antt =====
-- The autodialer: src/call.c, src/main.c, src/db.c and src/in_call.c, with the records of src/call.h
-- and src/db.h.
--
-- A campaign has destinations that wait and a process list of destinations that are being called.
-- A timer of the campaign (start_fake_calling) moves destinations to the process list and calls
-- them through a gateway (call_alloc). Once a second a timer of each destination (on_call_end)
-- supervises its call, ends it, and decides what becomes of the destination. The handlers of
-- call.c change a call when the network answers, a digit arrives or the peer hangs up; a call may
-- be forwarded to a PBX, and then two RTP sessions pass their packets on to one another. The RTP
-- sessions are pooled. A thread per call plays the audio file. What the main thread has to write
-- down it queues (db_exec); the database thread sends the queue to MySQL (db_sync).
--
--   Base         tests, lists, native numbers and words that all parts share
--   Rtp          src/call.c: rtp_session_allocate, udp_range_listen, find_rtp_session,
--                release_rtp_session. Pool, Filling and Ports prove what they promise; Ownership
--                says which call holds which session, and what an operation for one call may change.
--   Structs      the records of src/call.h, and the statements for the database
--   Call         src/call.c: Release is call_destructor; Alloc is sdp_sess_alloc and call_alloc;
--                Events are the handlers of the SIP session and of RTP packets
--   Dialer       src/main.c: Fill and Dial are the halves of start_fake_calling; Supervise is
--                on_call_end; Campaigns puts the handlers on the state of a campaign, and History
--                lets its timers and events come in any order. The modules Sessions follow the
--                RTP sessions of the calls through them, Timers the timers, and Routes, with
--                Noting and Wiring, the gateways and actions that the handlers read through,
--                and Supply the sessions that they need.
--   Db           src/db.c: the connection and the queue; Threads is the queue under two threads,
--                with db_sync taken apart, and Alone puts db_sync together again
--   Media        src/call.c: rtpThread
--   Rows         src/main.c: the rows and texts that pull_groups reads
--   Config       src/main.c: pull_groups. Keys are lists by number, Loading is what is read,
--                Preparing hands campaigns to the main thread, Sparing and Ending are about calls,
--                Resting about timers
--   Incoming     src/in_call.c: calls that come in
--   Stack        src/call.c: sipcall_alloc and close_sip
--   System       src/main.c: all campaigns with what the two threads share, and a step for each
--                thing that may happen. Isolation is about the calls, Settings about what is
--                loaded, Shutdown about the end on a signal, Rounds about DbThread. Threads
--                takes the rounds of DbThread apart: a step is a row of one of the three loops of
--                pull_groups, and the main thread's steps come between. Safety is about calls and
--                settings there, Timers about the timers, Walking about the third loop, Messages,
--                Waiting, Timely and Dangling about mqueue_push, Rounds about whole rounds.
--   Process      src/main.c: main, from libre_init to its return
--   Samples      small inputs
--
-- How the code is read. A handler run is a function on records, with the time of the clock as one
-- argument; a pointer to a call or destination stands where its owner holds it, a pointer to an RTP
-- session is its number in the pool, and one to a gateway is its id. What libre, MySQL, the files,
-- the random numbers and other threads answer are arguments. `none` is a fault: a read through a
-- null, dangling or freed pointer, or tmr_init on a timer that libre has in its list; a history of
-- steps has no faults. A time difference `now - t > limit` is written `t + limit < now`,
-- which is the same for signed seconds. Words of 8, 16 and 32 bits wrap where the code assigns them.
--
-- Loops over lists are structural. The loop of udp_range_listen has its 64 tries; those of the
-- two functions rtpThread run on fuel, and Media.Ending and Incoming.Playing show how much is enough;
-- so does that of DbThread, with System.Rounds. The connection to MySQL is that of DbThread alone: in
-- the steps of System it is open.
--
-- Not modelled: the library libre under re and the threads of tinycthread (called, not part of the
-- program), and syslog.c (output only). A round of the database thread is one step of System and
-- one step for each row of System.Threads. The code takes no lock even for a row; what may go wrong
-- within one is not shown, and neither is the signal handler in the middle of a round. A call keeps
-- a copy of the action it noted, where the code keeps a pointer into the campaign's actions. The
-- histories of Dialer.Campaigns.History are those of one campaign whose settings stay as they are;
-- those of System load settings anew.
pub mod Base
pub mod Call
pub mod Config
pub mod Db
pub mod Dialer
pub mod Incoming
pub mod Media
pub mod Process
pub mod Rows
pub mod Rtp
pub mod Samples
pub mod Stack
pub mod Structs
pub mod System
