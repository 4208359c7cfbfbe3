-- ===== src/Leader.antt =====
-- `LeaderState` of state.cpp: its main loop and its wait for the followers.
pub mod Main
pub mod Wait
pub mod Entries
pub mod Repairs
pub mod Votes
pub mod Replies
pub mod Commits
pub mod Stale
