-- ===== src/Debugger/Gdb.antt =====
-- debugger/gdb_debugger.h and debugger/gdb_debugger.cpp: the client that speaks GDB's remote protocol.
pub mod Library
pub mod Hex
pub mod Remote
pub mod Request
pub mod Client
pub mod Checksums
pub mod Packets
pub mod Accepted
pub mod Replies
pub mod Values
pub mod Registers
pub mod Dumps
pub mod Resumes
pub mod Session
pub mod Reports
pub mod EndToEnd
