-- ===== src/Ordered.antt =====
-- `std::map<std::string, V>` and `std::set<std::string>`: lists that ascend in the order of their
-- keys, which is also the order of iteration.
pub mod Set
pub mod Map
pub mod Extensional
