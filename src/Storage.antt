-- ===== src/Storage.antt =====
-- What the program keeps in files: the records of meetings and the blobs.
pub mod Records
pub mod Blob
