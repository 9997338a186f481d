-- ===== src/Lib.antt =====
-- binforge: the address space, loader, patches, snapshots, manifests, layouts, relocation tables, symbol
-- index, builder, queries, image diffs, signature scanner, byte reader and checked arithmetic of the
-- binary-analysis library (include/binforge/binforge.h and src/).
--
-- The parts, and how they work together:
--
-- - Base, Base/Checked, Base/Word: src/base.cc. Error codes, limits, checked arithmetic on 64 bits
--   and the CRC. A function that returns false and sets an error is a `Result`; `checked_add` and the
--   like are an `Option`. ByteOrder, and numbers as bytes in either order.
-- - Region and its modules: the std::map of regions of src/address_space.cc, as a list in the order of
--   the keys. `lower_bound`, `upper_bound` with `std::prev`, `find`, `emplace` and `erase` are searches
--   of that list; Region/Order says when a list is well formed, Region/View which bytes it holds.
-- - Memory and its modules: AddressSpace of src/address_space.cc, one function for each member
--   function, on a record of the limits, the regions and the byte count. The output array of a read is
--   the list it returns; memory that a failed call leaves alone is the caller's.
-- - Reader and its modules: ByteReader of src/reader.cc over a pointer that is not null. Reader/Decoder
--   is the chain of reads and tests of the two decoders, Reader/Container their magic and checksum.
-- - Patch, Patch/Atomic, Patch/Codec: src/patch_engine.cc. `apply` returns the result with the memory,
--   which a failed patch has rolled back from its undo list.
-- - Snapshot, Snapshot/Restore, Snapshot/Codec: src/snapshot.cc. `restore` builds a new address space
--   from `map_region` and `write` of Memory.
-- - Image: the parsed image of include/binforge/binforge.h, with the lookups of src/base.cc.
-- - Resolver, Resolver/Lookup: SymbolResolver of src/address_space.cc, its two maps as association lists.
-- - Parser, Parser/Signature: src/parser.cc, with the parsers of the three formats as arguments.
-- - Validator, Validator/Verdict: src/validator.cc; the errors of a report in the order of the pushes.
-- - Relocation, Relocation/Effect and Loader with its modules: src/loader.cc. Each step returns its
--   outcome beside the memory, since a load that fails keeps what it has done so far. The loader asks the
--   validator first, maps and writes through Memory, then relocates, then resolves imports. Place and
--   Origin have its arithmetic, Segments, Steps, Outcome and Counts its loops, Correct the whole of it.
-- - RelocationTable and its modules: src/relocation_decoder.cc, a module for each of the three formats,
--   with what each decoder appends in its Shape.
-- - Translator, Translator/Ranges: AddressTranslator of src/symbol_index.cc.
-- - SymbolIndex, SymbolIndex/Names, SymbolIndex/Nearest: SymbolIndex of src/symbol_index.cc, its maps as
--   lists in the order of the keys.
-- - Layout, Layout/Order, Layout/Plan: src/layout.cc. The planner asks the validator first.
-- - Manifest and its modules: src/manifest.cc. Codes has the casts of the enumerations, Write the encoder,
--   Read and Decode the decoder, which uses the Reader's chain and the validator.
-- - Builder and its modules: BinaryImageBuilder of src/builder.cc. `build` lays the
--   sections out and asks the validator last; what it made is compared with what was added.
-- - Query, Query/Answer: ImageQueryEngine of src/query.cc, the five loops as one function over a table
--   with the row and the test of its items. std::sort is Prelude/Sort.
-- - ImageDiff and its modules: src/image_diff.cc. ImageDiff has the maps and the loops over two of them,
--   Compare the tables; Same says what equivalent images share.
-- - Scanner and its modules: SignatureScanner of src/scanners.cc; Matches has the search at every offset
--   that a scan is compared with.
-- - Disassembly and its modules: DisassemblyAnalyzer of src/disassembly_analyzer.cc, with the decoder as
--   an argument. Chain is about the loop that decodes, Blocks and Report about the blocks.
-- - Prelude: numbers, tests, lists and bits that the parts share. Runs: concrete inputs.
--
-- Numbers are natural numbers with the wrap-around of the C++ types written out. The address space
-- assumes a byte limit below 2^64, as the type of max_mapped_bytes does, and size_t is of 64 bits.
-- Loops are recursion on the list or on the count; the two loops on LEB128 numbers recurse on the
-- number of rounds that their shift allows. The decimal digits of a segment's index, of 32 bits, have
-- fuel for the ten digits that it has at most; the loop over PE relocation blocks has fuel for the length
-- of the table, of which a round takes eight bytes at least,
-- the loop over the offsets of a signature for the length of the file and two rounds more, and the loop
-- that decodes instructions for the length of the bytes and one round more.
--
-- Not modelled: a null pointer that ByteReader or the disassembly analyzer is given, allocation failure,
-- and the other files of src/: the parsers of the three formats, the debug, note and unwind decoders, the
-- section graph, the string scanner, the hardening checks, the image and dependency analyzers, the
-- disassemblers, and the report writer, tool and fuzzers, which only format or drive.
pub mod Prelude
pub mod Base
pub mod Region
pub mod Memory
pub mod Patch
pub mod Reader
pub mod Snapshot
pub mod Disassembly
pub mod Image
pub mod ImageDiff
pub mod Resolver
pub mod Relocation
pub mod Validator
pub mod Parser
pub mod Loader
pub mod RelocationTable
pub mod Translator
pub mod SymbolIndex
pub mod Layout
pub mod Builder
pub mod Query
pub mod Manifest
pub mod Runs
pub mod Scanner
