-- ===== src/Calls.antt =====
-- Calls outside of the media connection: client/src/lib/pending-call-invite.ts and call-events.ts.
pub mod Invite
pub mod Report
