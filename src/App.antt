-- ===== src/App.antt =====
-- ripcord/main.py and ripcord/cli.py: how a server starts, and the operator's commands.
pub mod Startup
pub mod Commands
pub mod Bootstrap
pub mod Accepted
