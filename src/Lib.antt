-- ===== src/Lib.antt =====
-- mapplauncherd launches applications quickly: a daemon keeps a preloaded process, the booster, and a
-- small program, the invoker, hands it what to launch.
--
-- The parts and how they meet:
--   * The invoker (src/invoker) parses its options, connects to the booster's socket and writes one
--     invocation: magic word, name, file, arguments, priority, respawn delay, ids, standard
--     descriptors, environment, end. It reads an acknowledgement and, where it waits, a pid and an exit
--     status.
--   * The booster reads the invocation through a Connection into an AppData
--     (src/launcherlib/connection.cpp, appdata.cpp), tells the daemon, and becomes the application.
--   * The daemon (src/launcherlib/daemon.cpp) forks boosters, keeps the invoker's pid and descriptor for
--     each launched process, reaps dead children, reports their exits, and can replace its own image,
--     passing its state through a file.
--
-- The files:
--   * Base, and Base/*: Booleans, lists, 32-bit words and their bytes, and the integers. Map, Map/Order
--     and Map/Laws: std::map as a sorted list of pairs. Environ: putenv, setenv and basename of the C library.
--   * Protocol: src/common/protocol.h. Wire: what travels over a socket, and the record Kernel of system
--     calls, a parameter everywhere. IsReliable is what a stream socket promises whose data is there.
--   * AppData: src/launcherlib/appdata.cpp, one field for each member.
--   * Connection/State, Receive and Actions: src/launcherlib/connection.cpp, one function per member
--     function, as functions on the record Connection (`M`). Connection/Delivery, Rounds, Invocation,
--     Refusals and Termination are about them. Connection/Descriptors: the destructor, and what is closed.
--   * Invoker/Send and Invoker/Wait: src/invoker/invokelib.c and the invoke_* and invoker_* functions of
--     src/invoker/invoker.c; Invoker/Exit is about waiting. Invoker/Options: the option loop of main,
--     get_delay and the translation of types; Invoker/Options/Flags is about them. Invoker/Program:
--     main, invoke and invoke_fallback, with Sent and Status. Invoker/Signals: sig_forwarder and the functions it uses.
--   * Daemon/State: fields, forking and killing. Daemon/Reap: reapZombies, with Total, Alive and Settle.
--     Daemon/Loop: the main loop, the message of a booster, and the arguments (Options); Lifetime and
--     Daemon/Invariant are about its life. Daemon/Saved: reExec and restoreState, with Entries, RoundTrip and
--     Endings. Daemon/Spec: what the daemon promises, as a relation of steps between registries of
--     processes and their invokers; Refinement, Runs and Notices join it with the code, and Lifelong and
--     Waiting follow one process through the rounds of the main loop.
--     Daemon/Construct: the constructor, the signal handlers and run up to the main loop, with Fresh, Again,
--     Onward, Stale and Detach; live joins them with the main loop.
--   * Booster/Launch: the loop of initialize, receiveDataFromInvoker and sendDataToParent of
--     src/launcherlib/booster.cpp; Booster/Handover joins it with the invoker and the daemon. Booster/Rename:
--     renameProcess. Booster/Environment: setEnvironmentBeforeLaunch. Booster/Patience is about many
--     invokers. Booster/Process: pushPriority, popPriority, loadMain, launchProcess and run, and
--     launchProcess of src/booster-generic/booster-generic.cpp; Started and Restored are about them.
--     Booster/Initialize: what initialize does around its loop. Booster/Object: the whole object, its
--     constructor, initialize and resetOomAdj; Ready is about initialize, and Nice about the priority that an application gets.
--   * SingleInstance: src/single-instance/main.cpp, with Parts, Calls, Locks and Lock, and Exclusion, where
--     several processes run it beside each other, and their calls change the system's record locks, a
--     parameter; SingleInstance/Plugin: src/launcherlib/singleinstance.cpp, and loadSingleInstancePlugin of daemon.cpp. Report, with
--     Direction: src/common/report.c. Logger, with Order: src/launcherlib/logger.cpp.
--   * SocketManager: src/launcherlib/socketmanager.cpp, with SocketManager/Laws. Invoker/Connect: the path
--     of invoker_init. Invoker/Search: src/invoker/search.c.
--   * ExitStatus: the booster's message, the daemon and the invoker's wait together.
--   * Tests, and Tests/*: a concrete kernel, invocation and daemon, on which the theorems are applied.
--
-- State and results: a member function takes the object's record and returns its new value. An Outcome of
-- the daemon says whether a function returns, exits, throws, goes on in a forked child, replaces the
-- image, or does what the language leaves undefined. The effects of the daemon are kept in order in the
-- field log, which the source does not have.
--
-- Fuel: receive_actions, reap_from and read_entries take fuel where the source loops. receive_actions needs
-- one round more than there are bytes waiting; reap_zombies starts with two rounds more than there are
-- children, and with the field `spare` of Os more, any number of rounds for boosters that are forked and
-- found dead in the same pass, which daemon.cpp does not bound; without any it ends where no booster that
-- was just forked is found dead; restore_state starts
-- with one round more than there are words. Every round of the first and the last reads a word, and a
-- round of the second either drops a child, or goes on to the next, or forks the one new booster.
--
-- Numbers: words on the wire are below 2 ^ 32 and are split into four bytes, least significant first. Pids
-- and descriptors of the daemon are integers.
--
-- Signals: an invoker that waits deals with one signal, up to the byte in its pipe, before the next comes.
-- A signal that is raised again by default ends it, unless its default is to be ignored or to stop the
-- process, which then goes on when it is continued.
--
-- Not modelled: the text of messages, and which ones the daemon logs; signal masks; a failing write or
-- sendmsg of the invoker, whose result the code does not use; preload and preinit of the boosters, which
-- are not in this repository or empty. What D-Bus, dlopen, dlsym, the group database and systemd answer are
-- parameters. The scheduling of processes is an order of steps. The order in which events reach the daemon is an argument (the rounds of
-- run_loop). The iterator that reapZombies keeps while it pushes onto its vector is an index here, which
-- stays valid.
pub mod Base
pub mod Map
pub mod Environ
pub mod Protocol
pub mod Wire
pub mod AppData
pub mod SocketManager
pub mod SingleInstance
pub mod Logger
pub mod Report
pub mod Connection
pub mod Invoker
pub mod Daemon
pub mod Booster
pub mod ExitStatus
pub mod Tests
