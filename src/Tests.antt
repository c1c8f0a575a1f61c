-- ===== src/Tests.antt =====
-- Runs on concrete input, a module for each part.
mod Index
mod Watch
mod Ntfs
mod Query
mod Search
mod Parse
mod Content
mod Settings
mod Server
mod Http
mod Review
mod Hidden
