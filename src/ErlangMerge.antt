-- ===== src/ErlangMerge.antt =====
-- c_src/erlang_merge.cc: merges of integers, lists and binaries that are stored as external terms.
pub mod Operations
pub mod Operator
pub mod Append
pub mod Empty
pub mod Integers
pub mod Lists
pub mod Binaries
