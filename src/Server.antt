-- ===== src/Server.antt =====
-- server.py: the parts of the tool server that keep state of their own or read arguments.
pub mod History
pub mod Arguments
pub mod Policy
pub mod Resolve
