-- ===== src/Sglib.antt =====
-- The containers of agent/common/sglib.h, another project's library: what its clients rely on.
pub mod Tree
pub mod Member
pub mod Queue
pub mod SortedList
pub mod Samples
