-- ===== src/Xrce.antt =====
-- The XRCE-DDS client of xrce/src, a module for each part of it.
pub mod Cdr
pub mod Msgs
pub mod Serial
pub mod Reliable
pub mod Sha256
pub mod Secure
pub mod Session
mod Tests
mod MsgsTests
mod SecureTests
mod SessionTests
