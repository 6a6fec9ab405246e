-- ===== src/Lib.antt =====
-- Verification of the Yella agent.
--
-- The agent watches a host and reports to a router. Its plugins make messages; the spool keeps
-- them on disk until the router client has sent them. The file plugin runs jobs, which compare
-- files with what the state databases say of them. The settings hold what every part is
-- configured with.
--
-- Spool models agent/agent/spool.c. A directory is a list of entries with the position that a name
-- scans to and the file's bytes; struct spool is the record Spool, with a stream as its offset (NULL
-- is none) and the end-of-file mark of the reading one. The results of fopen, fwrite, fflush and
-- remove come from the record Stdio, by the number of the call, so every failure is a value of it.
--   Event     the bytes of an event: the count with the visited bit, then sizes and data
--   Files     the directory scans: find_file, find_oldest_file, find_newest_file, current_spool_size
--   State     the state, compare_write_to_read, fread, fwrite, increment_write_spool_partition
--   Write     spool_push and cull; Read: advance_to_next_unvisited and spool_pop
--   Life      create_spool, destroy_spool, the statistics
--   Scan, Codec, Contents, Push, Advance, Pop, Fifo, Fresh, Culling, Faults: the theorems
-- Numbers are little-endian on disk, size_t has 64 bits and a long too; sums that wrap are written
-- out. advance_to_next_unvisited is on fuel: one unit for each event passed over and one for the end
-- of each file; one more than the events that were read already is enough to find the next in the
-- file. The mutex is not modelled: an operation is one step, and the wait of spool_pop, during which
-- the mutex is free, is a function from the spool before to the spool after.
--
-- Router models agent/agent/router.c over the spool: Router is struct router with what the
-- sockets took and the callbacks that were made, and a socket that is read is the list of what
-- zmq_msg_recv returns on it, parts and failures. What zmq_msg_send returns is an argument.
-- Framing and Sockets are about the parts of a message, States about the monitor's events, Worker
-- about the loop over the polled sockets. What the senders' sockets took is one list in the order
-- of the calls; ZeroMQ orders the messages of one socket only. send_popped ends in a fault where
-- it has sent, since the data are then released twice.
--
-- Agent models the parts of agent/agent/agent.c that stand between the plugins and the router
-- client: load_plugins, with what each shared object has as an argument, message_received,
-- send_plugin_message over Router and its spool, and yella_create_agent in Start; what a start
-- meets is an argument. A handler is an address with its data, and what was called is a list.
--
-- Heartbeat models agent/agent/heartbeat.c and heartbeat_thr of agent/agent/agent.c, a round of
-- the thread for each of its waits. Parcel models agent/common/parcel.c, the envelope of all
-- messages, and Plugin the records of agent/plugin/plugin.c. SavedState models
-- agent/agent/saved_state.c; the comparison of addresses is on fuel, and one unit is enough
-- wherever it ends.
--
-- External models yella_to_utf8 of agent/common/text_util.c over the conversions of ICU, and
-- states what the code relies on of these and of FlatBuffers: a text that was converted reads
-- back, and a table has the fields that were added. Both are parameters, and so are the buffers.
-- Only texts of ASCII are converted; where the code uses the NULL that it gets for another, the
-- model has none or fault. A UDate is a double: a number of milliseconds is rounded to 53 bits
-- where the parcel is read.
--
-- File.JobQueue models agent/plugin/file/job_queue.c as the steps of its threads between two
-- locks: pushes, the three stretches of job_queue_main, the callback and the stop.
-- File.StateDbPool models agent/plugin/file/state_db_pool.c; what create_state_db and the clock
-- return are arguments.
--
-- File.Accumulator models agent/plugin/file/accumulator.c over the tree of recipients: a builder
-- is the list of the states in it, the size of its buffer is an argument, and the worker's wait
-- ends at any time.
--
-- File.Element models agent/plugin/file/element.c, File.Job agent/plugin/file/job.c,
-- process_element and crawl_dir first and run_job in Run, with the calls of
-- add_accumulator_message as Report, and File.EventSource agent/plugin/file/event_source.c.
-- File.Collect models agent/plugin/file/collect_attributes.c over what the operating system and
-- OpenSSL say of a file. The state database is a set of rows, a directory is a tree of names, and
-- what collect_attributes finds of a name is an argument of a job; the packing of attributes into
-- rows and failures of SQLite are left out. A job that uses attributes that were released has no
-- result.
--
-- File.Plugin models agent/plugin/file/file_plugin.c: install_config_node, save_configs and
-- event_received, with monitor_handler in Request and load_configs in Saved. Its state is the
-- capability's names, the tree of configurations, and the event source, the pool and the job
-- queue that it hands them to, and the file of configurations. An index that is not set is an
-- argument.
--
-- File.Pattern models agent/plugin/file/file_name_matcher.c. The match is on fuel: every call of
-- itself and every round of its loop has a shorter pattern, so one more than the length of the
-- pattern is enough.
--
-- File.Attribute models the comparison, packing and creation of agent/plugin/file/attribute.c
-- over the tables of serialization/public/file.fbs: a field that was not added reads as the
-- schema's default, and a table that was not added is none. A name that is not converted has no
-- packing.
--
-- PtrVector models agent/common/ptr_vector.c: a block of memory is what its slots hold, a write
-- behind it is none, and an offset is cut to an unsigned of 32 bits.
--
-- Settings models agent/common/settings.c: look-up, setters, byte sizes and the retrieval of a
-- section from a YAML document, which is a tree here: a document whose aliases make a cycle,
-- which the code follows for ever, is none. What ICU and strtoull make of a text are parameters.
-- FilePath models yella_remove_duplicate_dir_seps of agent/common/file.c.
--
-- Sglib states what agent/common/sglib.h, another project's library, promises of its trees and
-- lists; the clients take it as a parameter, and Sglib.Samples has containers that keep the laws.
-- Prelude passes on the library's names and holds the lemmas on lists, tests and texts.
--
-- Not modelled: the creation of sockets, the defaults of the settings and the end of the agent,
-- the start and the end of the file plugin, the SQL of the state database, what the operating
-- system is asked for on each platform, and everything that only calls the operating system,
-- SQLite, FlatBuffers or ZeroMQ.
pub mod Agent
pub mod External
pub mod File
pub mod FilePath
pub mod Heartbeat
pub mod Parcel
pub mod Plugin
pub mod Prelude
pub mod PtrVector
pub mod Router
pub mod SavedState
pub mod Settings
pub mod Sglib
pub mod Spool
