-- ===== src/Ntfs.antt =====
-- core/ntfs.py, the binary formats: the records of the USN journal and those of the MFT.
pub mod Bytes
pub mod Journal
pub mod Fixup
pub mod Mft
