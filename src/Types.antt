-- ===== src/Types.antt =====
-- src/types.rs: statuses, announcements, registry snapshots and the rules for their fields.
pub mod Keys
pub mod Status
pub mod Normalize
pub mod Capabilities
pub mod Announcement
pub mod Info
pub mod Txt
pub mod Auth
