-- ===== src/Install.antt =====
-- install.sh: the installer of the two programs.
pub mod Shell
pub mod Script
pub mod Detected
pub mod Attempted
mod Tests
