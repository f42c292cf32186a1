-- ===== src/Tests.antt =====
-- Runs of the development on samples.
mod Samples
mod Operations
mod Answers
mod Tools
mod Settings
mod Installing
mod Probing
mod Running
mod Connecting
