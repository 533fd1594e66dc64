-- ===== src/Database/Laws.antt =====
-- What a client sees of the handlers: the replies of one against those of another.
pub mod Strings
pub mod Lists
pub mod Hashes
pub mod Bitmaps
pub mod Sets
pub mod SortedSets
