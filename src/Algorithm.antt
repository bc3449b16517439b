-- ===== src/Algorithm.antt =====
-- modules/algorithm of the repository.
pub mod Heap
pub mod Union
