-- ===== src/File.antt =====
-- agent/plugin/file: the plugin that watches files.
pub mod Accumulator
pub mod Attribute
pub mod Collect
pub mod Element
pub mod EventSource
pub mod Job
pub mod JobQueue
pub mod Pattern
pub mod Plugin
pub mod StateDbPool
