-- ===== src/Dialer.antt =====
-- The dialling of src/main.c: Fill chooses the destinations to call, Dial calls them, Supervise
-- looks after a running call, and Campaigns joins these to the state of a campaign.
pub mod Fill
pub mod Dial
pub mod Supervise
pub mod Campaigns
pub mod Groups
