-- ===== src/PostingList.antt =====
-- Posting lists: c_src/posting_list_merge_operator.{h,cc} and c_src/posting_list_nif.cc.
pub mod Roaring
pub mod Format
pub mod Loops
pub mod Active
pub mod Operator
pub mod Parse
pub mod Search
pub mod Table
pub mod Nif
pub mod RoundTrip
pub mod SearchCorrect
pub mod History
pub mod Merge
pub mod Parts
pub mod Keys
pub mod Replies
pub mod Finds
pub mod Algebra
pub mod Bitmaps
pub mod Postings
