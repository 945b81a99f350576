-- ===== src/Downloader.antt =====
-- The download manager of hw3 (hw3/pkg/downloader): records and their life, the events of a task,
-- the two stores, the task itself, and the manager that joins them.
pub mod Record
pub mod Event
pub mod Calls
pub mod Tasks
pub mod Downloads
pub mod Task
pub mod Core
pub mod Examples
