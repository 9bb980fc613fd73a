-- ===== src/Lib.antt =====
-- dodder is a store of zettels: notes whose ids are pairs of words, kept with tags and types in
-- inventory lists of content-addressed blobs. This library models the part of its Go code (under
-- go/) that names, numbers and reads objects, and that packs their blobs into archives.
--
--   * Prelude, Prelude/Tests, Prelude/Lists: names of the standard libraries, Boolean tests and list
--     lemmas over the native numbers. A Go string or []byte is `Bytes`, a list of byte values.
--   * Run: code that may panic; `index` is Go's indexing of a slice.
--   * Utf8 and Text: Go's UTF-8 decoding and encoding of runes, and strings.TrimSpace, as the code
--     uses them.
--   * Coordinates (go/internal/_/coordinates/kennung.go): the numbering of pairs of positions in the
--     two word lists. An Int is a uint32, taken modulo 2 ^ 32. Extrema computes in float32, which is
--     modelled by Coordinates/Float on numbers of halves: 24 significant bits, ties to even.
--   * Doddish (go/internal/_/doddish): Op has the operator tables, Seq the tokens, their matching
--     (Seq/Matching) and their binary form (Seq/Coding), and Scanner the scanner. The scanner's
--     reader is the list of runes that are left together with the error that ends it. Its loops are
--     recursions on the runes left; readers that put back a rune return it to the list.
--   * ZettelId (go/internal/bravo/ids/zettel_id.go): a zettel id with its text form and its form as
--     a sequence of tokens.
--   * Compare (go/lib/alfa/cmp/bytes.go): the comparison of UTF-8 texts; the number of bytes of the
--     left text is its fuel, and that it is enough is part of the theorem of Compare/Order.
--   * Genres, Sigil and CheckoutMode (go/internal/alfa/genres/main.go, go/internal/bravo/ids/sigil.go
--     and go/internal/_/checkout_mode/main.go): the kinds of objects, what a query reaches, and what
--     is checked out, as numbers with their bits and names.
--   * ZettelIdProvider (go/internal/charlie/zettel_id_provider): the two lists of words, read from
--     files (Log) or from the entries of the log, the cleaning of words (Clean), and the lookup by
--     position and by word (Lookup). The blobs of entries come from a resolver, a parameter.
--   * ZettelIdIndex (go/internal/foxtrot/zettel_id_index/v0/main.go): the numbers that are available
--     for new ids. Keys is the map, Create takes numbers, Reset fills the map, and Numbers relates
--     numbers to ids. The map is the list of its keys in any order, encoding/gob is a parameter,
--     and what opening and decoding the named blob gives is an argument.
--   * Wire: what the file formats use of encoding/binary, bytes.Compare and io.ReaderAt.
--   * Catgut (go/lib/delta/catgut): Slice (slice.go) is bytes in two parts, and Slice/Flat is about its
--     searches. RingBuffer (ring_buffer.go) keeps them: Layout says where the bytes of a queue lie in
--     the buffer, Free and Writing are about Write, Taking about AdvanceRead, and Queue is the bounded
--     queue that the calls implement. Reading has what takes bytes from the reader, which is a
--     parameter: Filling and Fill are about Fill, Buffered and Stream about Read. Ints that are
--     subtracted from are patterns of 64 bits, and a buffer is smaller than 2 ^ 62.
--   * Merge (go/lib/charlie/quiter/merge.go): the merging of two sorted sequences, which the indexes
--     use for their additions and the rows of a file. Merge/Plain is about sequences without errors,
--     Merge/Union about what is in the result, Merge/Errors about all sequences.
--   * ObjectProbeIndex (go/internal/hotel/object_probe_index): the rows of a page and flushNew
--     (page_flush.go), which merges the added rows with those of the file and writes the last of each
--     group of equal rows. Last and Flush are about any total order, Digests about that of the rows.
--     The file is the list of its rows, and the added rows are what the heap of the page gives.
--   * InventoryArchive (go/internal/alfa/inventory_archive): types.go. Table is what the index and the
--     cache have in common, over an EntryFormat that holds what differs: its columns and numbers.
--     Table/Layout, Rows and FanOut are about the parts of a file, Table/Search about the binary search
--     of LookupHash, whose fuel is the size of its range, Table/Written about the whole of a written
--     index, and Table/Checksum about what is refused. Index (index_writer.go, index_reader.go) and
--     IndexV1 (index_v1.go) are its two versions. CacheFile, Cache (cache_writer.go, cache_reader.go)
--     and CacheV1 (cache_v1.go) are the cache. A file is the bytes that its io.ReaderAt gives.
--     Payload is what the data files share: the header, the sizes and the payload of an entry.
--     Entries is the loop that reads them, whose fuel is one more than the length of the file; Entries/
--     Fuel and FuelV1 are about its end, Entries/Laid about the places of entries. A read at the end
--     of a file gives io.EOF, and the model panics where the code wraps that error, since Wrap of
--     go/lib/bravo/errors/main.go does. Data (data_writer.go, data_reader.go) and DataV1 (the same
--     with _v1) are the two versions. The compressions and the encryption are parameters, records of
--     functions on all the bytes. Gear is gear_hash.go, minhash.go and their use in
--     signature_gear_cdc_minhash.go, and Selector is base_selector_size.go. Pack is
--     packChunkArchive of go/internal/foxtrot/blob_stores/pack_v0.go, which writes a data file and
--     its index. Memory is taken to suffice for what a reader allocates, but for lengths that are no
--     int; writes and seeks do not fail.
--
-- The parts meet as in the source: an id is set from a text by the scanner, which gives a sequence
-- of tokens that is matched against identifier, slash, identifier; numbers of coordinates are what
-- the code stores for ids. The entries of an index say where the blobs stand in the data file that
-- was written with it.
--
-- Bounds and fuel: the UTF-8 loops, the trimming loops and the reading of the binary form take a
-- fuel that is the number of bytes; each round takes at least one byte off. The square root of a
-- 32-bit number is found in 16 rounds, one binary digit each. A search of an index takes the size of
-- its range, and the reading of a data file one more than its length, both shown to be enough.
--
-- Not modelled: I/O, the configuration, the commands, the rest of the blob stores, and remotes; logging and
-- the text of errors; byte counters and positions that only diagnostics read; the capacity of slices and
-- pools of buffers.
pub mod Prelude
pub mod Run
pub mod Utf8
pub mod Wire
pub mod Text
pub mod Compare
pub mod Coordinates
pub mod Genres
pub mod Sigil
pub mod CheckoutMode
pub mod Catgut
pub mod Merge
pub mod ObjectProbeIndex
pub mod Doddish
pub mod ZettelId
pub mod ZettelIdProvider
pub mod ZettelIdIndex
pub mod InventoryArchive
