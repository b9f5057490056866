-- ===== src/Lib.antt =====
-- reflash rewrites the data of flash storage in place ("massage"): it reads each block and writes
-- the same bytes back. This library models the parts that decide whether the data survives and
-- whether the report is right.
--
-- The parts and how they meet. The massage engine finds the objects of a target: the whole device,
-- its partitions (src/io/partition.cpp), or the files of a file system (src/fs). For each extent
-- of an object it calls `rewrite_range` (src/io/block_io.cpp), which reads and writes through
-- `Device` (src/io/device.cpp), asks `PauseControl` before each block, learns from the page-cache
-- probes (src/io/page_cache.cpp) when a block is on the medium, and reports to `Progress`
-- (src/engine/progress.cpp), whose cells the user interface draws.
--
-- The files.
--   Base       shared names, lists under native indices, byte strings and little-endian words
--   Progress   `class Progress`: a record, and one function per method. Progress/Cells is about
--              marking a byte range, Progress/Reset about the choice of the cell size,
--              Progress/Calls about sequences of calls, with Progress/Calls/History on the cells and
--              Progress/Calls/Log on the log, Progress/Bytes about the byte counters
--   BlockIo    `rewrite_range`, split where the source branches: `config` and `refusal` before the
--              loop, `round` and `rewrite_chunk` for a block, `finish` after it. The objects that
--              it calls are the record `Host` over a state of the world. BlockIo/Loop has the rule
--              for its loop, BlockIo/Steps and BlockIo/Errors the report, BlockIo/Content the
--              bytes, BlockIo/Ends termination and completeness, BlockIo/DryRun the dry run
--   Fs         the types of src/fs/detect.hpp and the list of extents. Fs/Extents and Fs/Visited
--              are lemmas on extents and on marked clusters, Fs/Fat is src/fs/fat.cpp with
--              Fs/Fat/Chain on its cluster chains, Fs/Exfat and
--              Fs/Exfat/Chain are about src/fs/exfat.cpp, Fs/Detect is src/fs/detect.cpp and
--              Fs/Detect/Kinds its answers. Fs/Ntfs is src/fs/ntfs.cpp, with Fs/Ntfs/Scan for
--              `scan_ntfs`, Fs/Ntfs/Runs on run lists, Fs/Ntfs/Fixup on the fixup and
--              Fs/Ntfs/Loop on the loop over attributes. Fs/Ext is src/fs/ext.cpp, with
--              Fs/Ext/Scan for the directory walk and Fs/Ext/Extents on the extent tree
--   Partition  `probe_partitions`, src/io/partition.cpp
--   PageCache  src/io/page_cache.cpp and the pause control, src/engine/pause.cpp
--   Options    `parse_options`, src/options.cpp
--   Device     `class Device`, src/io/device.cpp: `io_exact` and the calls on it, and in
--              Device/Opening its `open` and `close`, with Device/Opening/Owned on
--              the descriptors. Device/Exact is about reading, Device/Writing
--              about writing, and Device/Hosting puts the device in the place of `Host`
--   Store      `class Store`, src/db/store.cpp, over the SQL statements as the interface `Sqlite`:
--              the records and their folders, in Store/Methods the other methods, and in
--              Store/Opening its opening and the check of its integrity. Store/Columns has the
--              columns and bound values of a record's row, with Store/Columns/RoundTrip on what is
--              read of it. Store/Path has the paths and Store/Path/Split their splitting;
--              Store/Laws is about what is found after it is stored, where the statements do what
--              the source means by them
--   Massage    src/engine/massage.cpp: one range with its records and the loop over the work.
--              Massage/Plan is how the work is found, with Massage/Plan/Items on the objects of a
--              file system; Massage/Run is about the loop, and Massage/Safety puts it on `Device`.
--              Massage/Engine is `run_inner`, over Massage/Engine/Interface, with
--              Massage/Engine/Rewriting for the work; Massage/Engine/Rewriting/Work and
--              Massage/Engine/Ends are about how it ends, and Massage/Thread is `start`
--   Sha1Pass   src/engine/sha1_pass.cpp: which files are hashed and what is recorded of each, with
--              `walk_dir` in Sha1Pass/Walk and `sha1_file` in Sha1Pass/File. Sha1Pass/File/Content
--              is about the bytes hashed, Sha1Pass/Todo about the files chosen, and
--              Sha1Pass/Verified about a file that is verified twice
--   Session    src/gui/session.cpp: the settings that are saved and restored. Session/Contents is
--              what stands in a file, with Session/Contents/Laws on what is read back, and
--              Session/Paths where it is, with Session/Paths/Laws; Session/RoundTrip is about both
--   Mount      src/mount/automount.cpp over the commands and calls of the host, the interface
--              `Shell`: Mount/Quote is about words for the shell, with Mount/Quote/Word,
--              Mount/Table finds the mounts of a device, with Mount/Table/Related, and
--              Mount/Unmount, Mount/Mounting, Mount/Browse, Mount/Restore and Mount/Eject are named
--              for what they do. Massage/Engine/Mounts puts them into the engine.
--              Mount/Pipe and Mount/Agent are src/mount/host_priv.cpp: the transfers and requests,
--              with Mount/Pipe/RoundTrip, and the agent and its client, with Mount/Agent/Start for
--              its start and Mount/Agent/Message
-- The files named Tests run the definitions on concrete data.
--
-- Conventions. Numbers are native; a sum or product of the source that can leave its width is
-- reduced modulo 2^16, 2^32 or 2^64. A file or device is what its calls answer: system calls,
-- the clocks, the allocator, `getopt_long`, `strtoull`, SQLite, OpenSSL and `wxFileConfig` are parameters.
-- The two `int` options, for the flush poll and for the days that a hash is valid, are natural: all
-- that sets them in the source keeps them positive. Saving settings is assumed to succeed, since
-- the source drops the answer of `cfg.Flush`.
-- Memory is assumed to suffice where the source sizes a vector. `double` is the interface
-- `Double`.
--
-- Fuel. `grow` counts the forty rounds that the source allows. `rewrite_range` gets a round for
-- each byte of the range and one more, which suffices since a round passes at least one byte.
-- `chain_extents` and `chain` get one round more than there are cluster numbers, which suffices
-- since they stop at a number they have seen, or go up. `read_exact` takes fuel for its rounds,
-- since interrupted calls have no bound, and so do `write_all` and `read_all` of the agent, whose
-- `agent_main` takes fuel for the requests it serves. `walk_dir` takes fuel for the nesting of
-- directories, which the source does not bound; so do the extent tree of ext, `delete_folder` and
-- the walk of the mounted directories. `decode_runs_allocated` gets a round for each byte, since
-- a round takes one at least, and `collect_nonresident_attrs` one more than there are 16-bit
-- offsets.
--
-- Order. Mounts whose names are of equal length are unmounted in the order of the table, which
-- `std::sort` leaves open.
--
-- Not modelled: `validate_manifest` of the database; user namespaces and the FUSE file systems of
-- src/mount; the enumeration of devices and the user interface, which are input and output.
pub mod Base
pub mod Progress
pub mod BlockIo
pub mod Fs
pub mod Partition
pub mod PageCache
pub mod Options
pub mod Device
pub mod Store
pub mod Massage
pub mod Sha1Pass
pub mod Session
pub mod Mount
