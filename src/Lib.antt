-- ===== src/Lib.antt =====
-- QuickFind finds files by name. An index holds an entry for each file of each drive; the
-- journal of changes that the file system keeps is read and applied to it; a query is parsed
-- and compiled to matchers, and the entries that pass them are the results. Around this core
-- stand a queue that refreshes the cache of file contents, the access control of the shared
-- search server, and the review of duplicates.
--
-- The parts, with the files that they model:
--
-- * Index (Index.antt and below) is core/index.py: `FileEntry` is the record of that name;
--   Index/Path is `resolve_path`, with `walk` its loop over the parents; Index/Invalidate is
--   `_invalidate_subtree_paths`; Index/Flat is `_should_exclude` and `_rebuild_flat_list`;
--   Index/Stat is `extension` and `ensure_stat`; Index/Usn is the loop of
--   `_apply_usn_changes`, a function for each of its branches; Index/Apply is the rest of
--   that method, `_persist_usn_checkpoints` and `_usn_resume_decision`; Index/Watch is
--   `notify` and `_pop_due_roots` of `PlatformWatchThread`.
-- * Ntfs (Ntfs.antt and below) is core/ntfs.py: Ntfs/Bytes has the reads of `struct`, which
--   raise outside the buffer, Ntfs/Journal is `read_usn_journal`, Ntfs/Fixup is
--   `_apply_usa_fixup` and Ntfs/Mft is `_parse_mft_record`.
-- * Query (Query.antt and below) is core/search.py: Query/Boolean is
--   `_parse_boolean_expression` with `_BooleanParser`, Query/Boolean/Legacy
--   `_legacy_boolean_fields` and `_compile_boolean_node`; Query/Options has the query's
--   record, Query/Matcher `_make_matcher` and the `_compile_` methods, Query/Matches is
--   `_matches`, and Query/Filters the class `SearchFilter` with the filters built in;
--   Query/Duplicates is `find_duplicates`; Query/Synonyms is `expand_query_terms` of
--   core/synonyms.py; Query/Parse is `parse_query`, with `parse_size` of core/utils.py in
--   Query/Parse/Values, the branches of the modifiers in Query/Parse/Modifiers and the loop
--   in Query/Parse/Whole; Query/Search is `_memory_search` and `_archive_search`,
--   Query/Search/Route `search` around them with the request to the database, and Query/Order
--   `_sort_results` with `natural_key` of core/utils.py.
-- * Content (Content.antt and below) is core/content/refresh_queue.py: Content/Queue the
--   class `ContentRefreshQueue` and `enqueue_change`, Content/Process the function
--   `process_batch`.
-- * Server (Server.antt and below): Server/Acl is server/acl.py; of server/http_server.py,
--   Server/RateLimit is `_RateLimiter`, Server/Session the methods on `_sessions`, and
--   Server/Http the handlers of requests, where Server/Http/Routes has `do_GET` and
--   `do_POST`.
-- * Review (Review.antt and below) is `preview_remediation` and `safe_recycle` of
--   core/duplicate_review.py.
-- * Hidden (Hidden.antt and below) is core/hidden_paths.py.
-- * Settings (Settings.antt and below) is gui/settings_validation.py: Settings has the values
--   of a profile and the tables of names, Settings/Sanitize the functions, a step for each
--   block of `sanitize_settings_data`; Settings/Keeps says which settings a step leaves, and
--   Settings/Answered takes the calls on a profile's texts as those that may raise.
-- * Prelude, Text and Dict are shared: lists measured by native numbers, Python's `str` as a
--   list of code points, and its `dict` as a list of items. Tests has runs on concrete input.
--
-- How the parts meet: the server's handlers filter results by Server/Acl; the records that
-- Ntfs/Journal gives are those that Index/Usn applies; `_apply_usn_changes` resolves paths by
-- Index/Path and clears cached ones by Index/Invalidate; `_matches` reads entries by the same
-- `get_path` and `ensure_stat`, and asks what the query of `parse_query` asks, and the
-- matchers that it is given are those that Query/Matcher compiles from the expressions of
-- Query/Boolean.
--
-- State is passed explicitly: an operation takes the index (or the queue, or the volume) and
-- returns the new one. A path or a size that is cached in an entry while it is read shows in
-- the entry that is returned. An exception that the program handles is a value, `none` or a
-- constructor. So is one that leaves an operation, where the model says so: a lookup of a
-- token that is not ASCII, which makes `compare_digest` raise, a key of the sort, the
-- validation of a profile, a POST or a GET without a response.
--
-- Loops that are not structural run on fuel. The walk over parents has a round for each entry
-- of the drive and one more, since it never visits an FRN twice. The Boolean parser has six
-- units for each token and five more. The loops over a journal buffer and over the attributes
-- of an MFT record have a unit for each byte, since each record or attribute moves them
-- forward. The loop of `_invalidate_subtree_paths` keeps no set of the visited: its fuel is a
-- parameter, enough exists where parent links form a forest, and none is enough on a cycle.
-- `_apply_usn_changes` inherits that fuel.
--
-- Numbers are natural numbers. File numbers keep their 48 bits by `% 2 ^ 48`. The clocks of
-- the server are read in ticks, of which a second has a number that is a parameter. A date is
-- the number of its microseconds, of which only the order is used.
--
-- What is a parameter: regular expressions and `fnmatch`, the Unicode tables of `lower` and
-- `upper`, `os.stat` and the other questions to the file system, `DeviceIoControl`, the
-- decoding of UTF-16, the local time, the SQLite cache (whether it took a batch), plugins,
-- the callbacks of the content queue, whether a file can be written, the resolution of paths
-- in the server, and there the search engine with the payloads of its results and the parsers
-- of URLs, cookies and JSON.
--
-- Not modelled: the user interface, the SQL of the cache, threads and signals (a method that
-- holds the lock for its whole body is one step), the opening and reading of volumes, the
-- registry of plugins and the query slots, the duplicates by content hash, the reading of
-- archives and documents, the pages of the HTTP server and its sockets.
pub mod Prelude
pub mod Text
pub mod Dict
pub mod Index
pub mod Ntfs
pub mod Query
pub mod Content
pub mod Server
pub mod Settings
pub mod Review
pub mod Hidden
pub mod Tests
