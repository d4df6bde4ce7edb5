-- ===== src/Discovery.antt =====
-- internal/discovery: the scan targets, the jobs that scan them, and the import of what they find.
pub mod Target
pub mod Ports
pub mod Fingerprints
pub mod Identity
pub mod Jobs
pub mod Listing
pub mod Import
pub mod Service
pub mod Tests
