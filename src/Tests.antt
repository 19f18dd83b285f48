-- ===== src/Tests.antt =====
-- The tests and the theorems at concrete inputs, with drivers that run.
mod Buffers
mod Heap
mod Entries
mod Openings
mod Zones
mod Handles
mod Encoders
mod Catalogs
mod Calls
mod Database
mod Bank
mod Binds
mod Drivers
mod Results
mod Fetches
mod Frames
mod Nested
mod Lives
mod Values
