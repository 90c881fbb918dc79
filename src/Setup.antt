-- ===== src/Setup.antt =====
-- files/usr/libexec/moonmachine-setup: what the first boot puts into the home of the first account.
pub mod Disk
pub mod Host
pub mod Seed
pub mod Steps
pub mod Kept
pub mod Safety
pub mod Reach
pub mod Update
pub mod View
pub mod Folder
pub mod Refine
pub mod Main
pub mod Chosen
pub mod Named
pub mod Written
pub mod Again
pub mod Examples
