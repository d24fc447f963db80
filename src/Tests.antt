-- ===== src/Tests.antt =====
-- Tests at concrete inputs, with a small interpreter in place of monty.
mod Samples
mod Meters
mod Programs
mod Requests
mod Runs
mod Callers
mod Configs
mod Servers
mod Races
mod Snapshots
