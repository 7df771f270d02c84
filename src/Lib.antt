-- ===== src/Lib.antt =====
-- Gerbera, a UPnP media server: the parts that keep state or texts of their own.
--
-- A byte is a number below 256, and a text a list of bytes; zmm::String is an optional text, whose
-- C functions see it up to its first NUL. An `int` or `time_t` is an integer, and wraps where the
-- source relies on it; sizes and times are natural numbers. An object that is shared and changed is
-- a reference into a heap where sharing matters (StorageCache), a value elsewhere. Code that is
-- locked is one step; where a lock is released, other threads' steps are made explicit.
--
--   Prelude: shared names, Boolean tests, lists over the native numbers, integers, ring indices.
--   Zmm/Strings, Zmm/Number: src/zmm/strings.cc, with what it uses of <cstring>, sprintf and strtol.
--   Zmm/Queue: src/zmm/base_queue.h. The queue's memory is a function; the elements are in
--   Fifo's `to_list`.
--   Tools: src/tools.cc. Hex (hex_encode, hex_decode_string), Url (url_escape, url_unescape), Split
--   (split_string, split_path, trim_string), Clock (getDeltaMillis, getTimespecAfterMillis),
--   Protocol (renderProtocolInfo, getMTFromProtocolInfo, getProtocol, check_resolution), Paths
--   (normalizePath, on the stack of src/zmm/base_stack.h), Sorting (quicksort, on an array that is a
--   function of the index), Escape (escape, unescape).
--   ContentManager: the task queues of src/content_manager.cc. A task is shared, so that the queues of
--   Zmm/Queue hold references into a heap. Order has the queues as lists, Invalidation and
--   Listing have the other operations.
--   Cds: src/cds_objects.h and src/cds_objects.cc. An object is a record whose class is a sum; the
--   virtual methods are functions by clauses on it.
--   Mxml: src/mxml, the tree of an XML document (element.cc), its texts (Content) and how it is
--   printed (Printing: node.cc). Xpath: src/xpath.cc on these trees.
--   Dictionary: src/dictionary.cc. Resource: src/cds_resource.cc, which encodes three dictionaries.
--   Io/Buffer: src/io_handler_buffer_helper.cc and src/buffered_io_handler.cc. Threads has the steps
--   of the reader, between its two critical sections, and of the thread that fills the ring.
--   Io/Memory: src/mem_io_handler.cc; Window is its specification.
--   Session, SessionManager: src/session_manager.cc. Containers that changed collect in each session
--   that is logged in; the timer removes sessions.
--   Autoscan: src/autoscan.cc, the slots of the directories; Names, the words for modes and levels.
--   UpdateManager: src/update_manager.cc. Delivery has the runs of its threads, Interleaved the loop
--   of containersChanged, which releases the lock, Rounds the thread that sends.
--   Timer: src/timer.cc and src/timer.h. StorageCache: src/storage/storage_cache.cc.
--   Storage: src/storage.cc and src/storage/sql_storage.cc, the virtual containers. Separators, Titles
--   and Strip are about their paths; Tree has the invariant of the table, Creation createContainer,
--   Extending and Chain addContainerChain. Removal is _recursiveRemove and _removeObjects: Rounds and
--   Children have its invariant, Asking its first state, Whole the database that it leaves,
--   Passing its limit of rounds. The program stores references to items that have none themselves; a
--   database is taken to be so, except by Passing.
--   Purge is _purgeEmptyContainers, removeObject and removeObjects: Emptied has a round of it,
--   Cleaning all rounds, Linked what it keeps, Removing the branches of removeObject.
--   Tests: the theorems at concrete inputs.
--
-- Fuel: split_string and decode run on the length of the text, of which each round takes at least
-- one byte; print_loop on the number itself; fresh_id on 102 rounds, of which the source stops at
-- the 101st by itself. The walk of normalizePath takes a byte in each round, and remove_named a
-- child in each call but the last. quicksort_impl runs on the number of elements, its loop and
-- its searches on the distance of their ends, and each says where its fuel is spent.
-- add_container_chain and reduce run on the length of the path, which each call and each round
-- shortens.
--
-- Random ids, the clock, storage, and what other threads do during a wait are parameters. Not
-- modelled: seeking in the buffered handler, reference counts, logging, the rows of
-- objects in the SQL storage and browsing them, the XML parser, indentation and JSON, configuration,
-- UPnP and HTTP glue, web pages, metadata, scripting, transcoding, online services and inotify, which
-- are I/O or calls of libraries, or wait for later work.
pub mod Prelude
pub mod Zmm
pub mod Tools
pub mod Dictionary
pub mod Resource
pub mod Io
pub mod Session
pub mod SessionManager
pub mod Autoscan
pub mod Cds
pub mod Mxml
pub mod Xpath
pub mod ContentManager
pub mod UpdateManager
pub mod Timer
pub mod Storage
pub mod StorageCache
pub mod Tests
