-- ===== src/Lib.antt =====
-- Verification of tar-codec: the framing layer of its tar archives, crates/tar-framing; the members that
-- crates/tar-codec decodes; the paths, trees and links of crates/archive-trait.
--
-- The program reads and writes tar archives in two families: POSIX pax over ustar headers, and GNU
-- tar. An archive is a sequence of blocks of 512 bytes. The framing layer turns blocks into frames
-- (headers, extended headers, pieces of payload) under a strict state machine, and builds the
-- blocks of a member that is written. The crates above it (tar-codec, archive-trait, tarpit)
-- assemble members from frames and move them to and from a file system.
--
-- The files:
--   Base, Text: lists, results, 64-bit checked arithmetic, and the operations of `str` that the
--     crates call (UTF-8 validation, `split_once`, `parse::<u64>`).
--   Header: crates/tar-framing/src/header.rs. Field ranges, `checksum`, `encode_octal` and
--     `parse_octal`, `parse_gnu_number`. Header/Octal, Header/Accepts and Header/Checksum prove.
--   Pax: crates/tar-framing/src/pax.rs. Pax/Parse has `PaxRecords::parse` and the value parsers;
--     Pax/Globals the records in force (`GlobalPaxRecords::apply`, `PaxState`); Pax/Total,
--     Pax/Keywords, Pax/Updates and Pax/Overrides prove.
--   Stream: crates/tar-framing/src/stream.rs. Stream has the frames and the states;
--     Stream/Headers `ParsedHeader` and `HeaderFrame`; Stream/Machine `process_block` and the
--     handlers it calls, as functions from the stream's state to a new state and a result;
--     Stream/Reader `poll_read_block` and `poll_next_frame` over a reader that is a parameter.
--     Stream/Chunk has the payload of a member read in chunks, and Stream/Chunk/Calls
--     `read_member_block` and `read_member_chunk`; Stream/Chunk/Completion, Stream/Chunk/Delivery
--     and Stream/Chunk/Calls/Errors prove of them.
--     Stream/Invariant, Stream/Format, Stream/Diagram, Stream/Payload, Stream/Reader/Reads and
--     Stream/Reader/Rounds prove.
--   Logical: crates/tar-framing/src/logical.rs. The assembly of members from frames (the `match` of
--     `TarReader::next_frame`, `process_extension_data`), effective paths, GNU metadata.
--     Logical/Payload has `PayloadReader`, which drains what is left of a member.
--     Logical/Lockstep sets it beside the machine of Stream; Logical/Names proves of names.
--   Archive: crates/archive-trait/src/lib.rs (members and errors). Archive/Names: name.rs.
--     Archive/Path: `NormalizedPath` of extract/path.rs, with Archive/Path/Stack and
--     Archive/Path/Prefixes on its components. Archive/Decode: extract.rs's checks, and
--     `decode_member`, `validate_symlink_target` and `resolve_link_target` of extract/path.rs; its
--     children prove. Archive/Tree: component_tree.rs; Archive/Tree/Counts, Invariant, Growth and
--     Children prove. Archive/Links: the entries and `resolve_terminal` of extract/root.rs;
--     Archive/Links/Work, Archive/Links/Walks and Archive/Links/Targets prove.
--   Codec: crates/tar-codec/src/decode.rs. Codec/Policy has the checks of a `DecodePolicy`,
--     Codec/Project `project_member` and `TarArchive::next_member` over a reader of member frames;
--     Codec/Policy/Accepts and Codec/Project/Members prove.
--   Write: crates/tar-framing/src/write.rs. Write/Decimal has `decimal_u64`, Write/Records
--     `append_pax_record`, Write/Member `frame_pax_member_into`; their children prove.
--   An Examples module below each of these: runs on concrete input.
--
-- How the parts meet: `TarStream` turns blocks into frames and keeps its own copy of the global pax
-- records; `TarReader` makes members of the frames and keeps another. `TarArchive` checks each
-- member against its policy and projects it to a `Member`; extraction decodes the member's path and
-- link target, and at its end resolves the links that it reserved.
--
-- How code and model correspond: a struct is a record, an enum a data type, a `Result` the type
-- `Result` of Base. A byte is a number below 256, a buffer or a slice the list of its bytes, and a
-- `&str` the list of its UTF-8 bytes. `u64` is a number below 2 ^ 64 where that matters, `usize` is
-- 64 bits wide; the checked operations fail past that bound. `io::Error` is a number. A method with
-- `&mut self` returns the new state beside its result. A hash map is an association list. An
-- asynchronous reader is a source with a function `poll_read`; `ReadsInOrder` states what the
-- documentation of such a reader says: it fills a buffer with the next bytes of its contents, and
-- fills nothing only at their end. `std::path::Path::components` is a parameter of the checks on paths,
-- of which the theorems suppose nothing. The equality of keys that a component tree uses is an
-- argument of its operations.
--
-- Fuel: the loop of `PaxRecords::parse` takes a round for each record, and a record has a byte at
-- least, so the length of the payload is enough. The loop of `poll_read_block` takes a byte in each
-- round but the last, so 513 rounds are enough for a block; `poll_next_frame` reads three blocks
-- at most before it returns. The loop of `complete_member_chunk` takes a byte in each round but the
-- last, so one round more than a chunk has bytes is enough. `ilog10` and `checked_ilog(8)` take 20
-- and 22 divisions for a `u64`. The loop of `resolve_terminal` is bounded in the code, by 257 rounds.
-- `decimal_u64_large` is a recursion on what remains of the number.
--
-- Not modelled: the loop of `TarReader::next_frame` around its `match`; the file-system operations of
-- extraction (extract/root.rs and its buffered files), the builder and its traversal, the encoder of
-- crates/tar-codec; the command line; error messages, formatting, the wake-ups of asynchronous tasks, and the reuse of
-- allocations.
pub mod Base
pub mod Header
pub mod Text
pub mod Pax
pub mod Stream
pub mod Logical
pub mod Archive
pub mod Codec
pub mod Write
