-- ===== src/Lib.antt =====
-- SEvMgr, the management of the events of the simulator of an airline: a queue of events in the
-- order of their time stamps, with counts of the events played and to be played, overall and by
-- event type.
--
-- The program, from the inside out:
--   * the event queue and its key (sevmgr/bom/EventQueue.cpp, .hpp, EventQueueKey.cpp): `EventQueue`,
--     with the progress statuses in EventQueue/Statuses, `popEvent`, `addEvent` and
--     `hasEventDateTime` in EventQueue/Events, and the texts in EventQueue/Display. Methods keep
--     their names in snake_case; an overload has its own: `list_of` is `list` of a type,
--     `update_status_nb` is `updateStatus` of a number, `set_overall` and `get_overall_*` are those
--     without a type;
--   * the command (sevmgr/command/EventQueueManager.cpp): `EventQueueManager`, which drives the queue:
--     `run`, `select`, `popEvent` with its handler, the sample queue;
--   * the JSON export of a queue (sevmgr/bom/BomJSONExport.cpp): `JsonExport`;
--   * the service (sevmgr/service/SEVMGR_Service.cpp, SEVMGR_ServiceContext.cpp): `Service`, whose
--     methods check that the service is initialised, take the queue out of the context and call the
--     command. Service/Contexts has the getters and the texts of the context, Service/Requests the
--     calls of the public methods as data, one after another. Service/Refinement has what a request
--     may do to the agenda of the queue, the view that forgets how the queue stores its events;
--   * the factory of contexts (sevmgr/factory/FacSEVMGRServiceContext.cpp) with the constructors and the
--     destructor of the service: `Service.Store`, where a context stands at an address in a store and a
--     service is the pointer to it. Service/Store/Clients has several clients, each with its own
--     service, whose calls interleave as moves of one world;
--   * the demonstration (sevmgr/batches/sevmgr_demo.cpp): `Demo`, which plays the sample queue, and
--     Demo/Options, the program from its options on;
--   * the interactive shell (sevmgr/ui/cmdline/sevmgr.cpp): `Shell`, with the tokens of a line and the
--     command in Shell/Tokens, `parseEventDateTime` in Shell/Dates, and the loop and the `switch` in
--     Shell/Commands. `Shell/Platform` holds what the shell alone uses of Boost and StdAir. A line is
--     the list of its tokens, a `Reply` stands for what a command does, and Shell/Printing has the texts
--     that a session prints. Shell/Completions is `initReadline`, Shell/Options the start of `main`;
--     `CommandLine` is what both programs use of Boost's option parser;
--   * the object for Python programs (sevmgr/python/pysevmgr.cpp): `Python`;
--   * the test case (test/sevmgr/EventQueueManagementTestSuite.cpp): `EventQueueManagementTestSuite`,
--     as a client of the service, whose checks end it when they fail. The record `Calendar` is what it
--     uses of the dates of Boost. Its loop is that of the demonstration.
-- `Prelude` holds what the parts share: tests, lists and signed integers over the native natural
-- numbers, and `Execution`, in which a method is a function of the objects that it may change into a
-- result: a value with the new state, an exception with the state that it leaves, a failed
-- assertion, undefined behaviour, or a loop that ran out of fuel. `OrderedMap` is `std::map` as a list
-- of keys and values: `insert` returns the flag that the one of `std::map` returns. `Frame` is a queue
-- beside the `EventStruct` that the caller passes by reference, `Session` the same for the service,
-- `Site` the same for the store. EventQueueManager/Grading is the interface between the queue and the
-- proofs about whole histories: a family of predicates of the queue, indexed by a number of additions,
-- that the methods of the queue keep, from which Service/Requests/Grading derives what requests do.
--
-- StdAir and Boost are not in the repository. Their types and functions are the fields of the record
-- `Stdair`, an argument of every definition that uses them, and `Stdair/Laws` says what the code
-- relies on of them: `EventLaws` of time stamps and types, `StatusLaws` of the counters of a progress status,
-- `RealLaws` of `double`. Tests/Samples has a small StdAir for which they hold, Tests/Terminal a small
-- platform for the shell.
--
-- Choices:
--   * an event type is the number of its enumerator; `BKG_REQ`, `BRK_PT` and `LAST_VALUE` are fields;
--   * a time stamp, a 64-bit integer, is taken 2^63 higher, so that it is a natural number below 2^64
--     and keeps its order;
--   * a count is an `int`: each sum that the code makes is tested to be in its range, and a sum that
--     is not is undefined behaviour; a size becomes a count by its lowest 32 bits (`int_of_size`);
--     `double` is an abstract type;
--   * the repository is built with assertions, and a false one ends the program (`aborted`), as does a
--     null pointer that is followed;
--   * the loop of `addEvent` has one round of fuel more than the queue has events, those of `run` and
--     `select` too: each failed attempt of the first passes a taken time stamp, each round of the
--     others takes an event out of the queue, so the fuel is enough; so is that of the main loop of the
--     demonstration and of the test case. The loop over the matches of a line has an `unsigned short` for its index, and
--     2^16 rounds of fuel;
--   * an exception has no text: only what is thrown, when, and the state at that time are modelled;
--   * the JSON export is that of a build with Boost 1.41 or later.
--
-- Not modelled: logs; that the reference which `getEventQueue` of the service returns lets a client
-- change the queue (`get_event_queue` gives the queue as it is then); the parent and the holder map of a queue, which no method of it uses; that
-- two services may share a StdAir service; how Boost parses and prints options, which is an argument,
-- and how StdAir makes its service; the destruction of the contexts with their factory, which StdAir does
-- at the end of the program; the templates for event generators, which SEVMGR_Service.hpp declares and
-- nothing defines; `buildSampleBom`, which the Python object calls and the service does not have, so
-- that it is an argument; what readline does with the completions, and its history.
pub mod Prelude
pub mod OrderedMap
pub mod Stdair
pub mod CommandLine
pub mod EventQueue
pub mod EventQueueManager
pub mod JsonExport
pub mod Service
pub mod Demo
pub mod Python
pub mod Shell
pub mod EventQueueManagementTestSuite
mod Tests
