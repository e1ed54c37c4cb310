-- ===== src/Cmd.antt =====
-- cmd: the commands that manage running databases.
pub mod Stop
pub mod Flags
pub mod Start
pub mod List
pub mod Testing
pub mod Api
pub mod Describe
pub mod Declared
