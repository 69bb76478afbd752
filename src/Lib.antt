-- ===== src/Lib.antt =====
-- A model of the merge operators, the posting list functions, the compaction filter, the counted
-- objects, the reads and writes of a database, the transactions, the write batches, the iterators
-- and the transaction log of erlang-rocksdb, the NIF library under c_src that binds RocksDB to
-- Erlang.
--
-- RocksDB calls a merge operator with a stored value and a run of operands, either for the whole
-- run (`FullMergeV2`) or for a part of it whose result is an operand later (`PartialMergeMulti`).
-- It calls the compaction filter for each pair that a compaction meets. The Erlang side calls the
-- posting list functions on values that it has read. A posting list value is written by the merge
-- operator and by the NIF functions, and read by both. Databases, iterators, snapshots and the like
-- are objects that Erlang refers to and that calls count; a close of a database closes what was
-- opened on it. A batch is filled before it is written, and `BatchToList` and the transaction log
-- list a batch with one handler.
--
-- The files and what they model:
--   PostingList and below: c_src/posting_list_merge_operator.cc and c_src/posting_list_nif.cc.
--     Format has both value formats (`DetectVersion`, `ParseV1Value`, `ParseV2Value`, `SerializeV2`),
--     Operator the merges, Parse and Search the readers of the NIF functions, Nif the functions,
--     Nif/Resource the parsed resource (`PostingsOpen` and the functions on it), Roaring the hash of
--     a key and the bitmap. The helpers that the two sources have in equal copies (`fmix64`,
--     `hash_key`, `detect_version`, `serialize_v2`) are one definition. History says what the bytes
--     of values and operands write to a key, by its last write; the other files are proofs.
--   ErlangMerge and below: c_src/erlang_merge.cc. Operations has what one operand does, Operator the
--     loops and the choice by what is stored.
--   Counter: c_src/counter_merge_operator.cc. Stoi has `std::stoi` and `std::to_string`.
--   Bitset: c_src/bitset_merge_operator.cc.
--   CompactionFilter and below: c_src/compaction_filter.h and c_src/compaction_filter.cc. Rules has
--     `ApplyRules` and `CheckTTL`, Batch has `CompactionBatchResource` and `CompactionFilterReply`,
--     Filter has `FilterV2` and `CallErlangHandler` with the handles that a call holds. Options has
--     the option of `parse_cf_option` in c_src/erocksdb_db.cc that sets the rules or the handler.
--   RefObject and below: `RefObject`, `ErlRefObject` and `ReferencePtr` of c_src/refobjects.h and
--     c_src/refobjects.cc for one object under several threads, with `compare_and_swap` of
--     c_src/detail.hpp. `advance` is one atomic access of one thread, Steps interleaves the threads.
--   DbObject and below: `DbObject` of the same files with its lists, and the iterators, column
--     families, snapshots, transaction log iterators and transactions that hold it. A call is taken
--     as a whole, with `DestroyColumnFamily` of c_src/erocksdb_column_family.cc; Steps has the calls
--     in any order.
--   WriteBatch and below: c_src/batch.cc, and the handler of c_src/transaction_log.h that lists what a
--     batch holds. Spec has a batch as a list of records with save points.
--   Iterator and below: c_src/erocksdb_iter.cc. Iterator has the moves, Cursor what RocksDB documents of
--     an iterator, Bounds the slices of the bounds that the constructors make and delete, with those of
--     a transaction's iterators in c_src/transaction.cc and c_src/pessimistic_transaction.cc.
--   TransactionLog and below: c_src/transaction_log.cc, the reading of updates and their writing to
--     another database.
--   Calls and below: c_src/util.cc, and the reads and writes of c_src/erocksdb_db.cc. Calls has
--     `error_tuple` and `fold` (c_src/atoms.h), Options what is parsed of the options of reads,
--     writes, flushes, manual compactions and transactions, Database the writes, Reads the reads,
--     Types the Erlang types of replies, Outcome what a call answers by the status it meets.
--   Transaction and below: c_src/transaction.cc, and in Pessimistic c_src/pessimistic_transaction.cc.
--     Spec has what a client sees of a transaction, Answers the calls and the replies to expect.
--   SstFile and below: c_src/sst_file_writer.cc and c_src/sst_file_reader.cc, the writer and the
--     iterator of a reader.
--   Term: Erlang terms as the functions of the NIF interface see them. Merged: how a merge ends.
--   Bytes, Ordered: byte strings with the order of `std::string`, `std::set` and `std::map` as lists
--     in that order. Prelude: names, tests, lists and integers that the rest shares.
--   Examples and below: tests, and the theorems at concrete inputs.
--
-- Numbers are natural; a 32-bit or 64-bit sum that can wrap around is written with its remainder.
-- A pointer into a value is the list of the bytes from it to the end. The loop over V1 entries runs
-- on fuel, one for each byte of the input, and an entry takes five bytes or more, so the fuel is
-- never used up; the loop over V2 keys counts its keys down; the binary search has one more round
-- than there are keys, and halves the range in each; a decimal text of an `int` has ten digits.
-- A loop of `DbObject::Shutdown` has as many rounds as its list is long, since a round takes one out
-- and adds none. A reference count has 32 bits: the theorems on threads are for fewer than 2^32 - 1
-- of them, and a step that counts up is one where the counter has room.
--
-- Parameters: the runtime's external term format and term order (`Term.Runtime`, and
-- `binary_to_term` in PostingList), CRoaring (`PostingList.Roaring.Roaring`, with a build that has
-- it or not), `rocksdb::WriteBatch` (`WriteBatch.Library`), `rocksdb::Iterator`
-- (`Iterator.Library`), `rocksdb::TransactionLogIterator` (`TransactionLog.Library`), `rocksdb::DB`
-- (`Calls.Database.Library`, with the defaults of its options) and `rocksdb::Transaction`
-- (`Transaction.Library`), `rocksdb::SstFileWriter` (`SstFile.Library`), the handles of column families and snapshots, the clock, and what the runtime and the handler do during a call of
-- the filter. Their documented laws are hypotheses of the theorems that need them (`IsFaithful`,
-- `IsEquivalence`, `IsRoaring`, `IsWriteBatch`, `IsCursor`, `IsLog`, `IsTransaction`,
-- `IsWriter`). Which locks a
-- transaction gets and which commits conflict is for the library to say, by the status of a call.
--
-- Assumptions: the host is little-endian, and memory for results and for environments is there, but
-- for the allocations that `CallErlangHandler` and `PostingsOpen` test. The first argument of a
-- function on a database, a batch, an iterator or a log is an open handle of that class.
--
-- Not modelled: opening a database, the options of databases and column families but for the
-- compaction filter, properties and statistics (c_src/erocksdb_db.cc); when the runtime gives an
-- object's memory back; the options of iterators but for their bounds; caches, limiters and files,
-- which hand over to RocksDB; the libraries under deps; and the Erlang module.
pub mod Prelude
pub mod Bytes
pub mod Ordered
pub mod Term
pub mod PostingList
pub mod Merged
pub mod ErlangMerge
pub mod Stoi
pub mod Counter
pub mod Bitset
pub mod CompactionFilter
pub mod RefObject
pub mod DbObject
pub mod WriteBatch
pub mod Iterator
pub mod TransactionLog
pub mod Calls
pub mod Transaction
pub mod SstFile
pub mod Examples
