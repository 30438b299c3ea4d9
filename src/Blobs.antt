-- ===== src/Blobs.antt =====
-- source/modules/eagine/core/blobs.cpp and blobs_impl.cpp: transfer of large objects in fragments.
pub mod Parts
pub mod Io
pub mod Pending
pub mod Buffer
pub mod Stream
pub mod Manipulator
mod Tests
