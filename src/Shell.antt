-- ===== src/Shell.antt =====
-- hw3/internal/shell: the commands of the prompt, and the loop that reads it.
pub mod Formatting
pub mod Pattern
pub mod Command
pub mod Commands
pub mod Loop
pub mod Manager
mod Examples
