-- ===== src/Examples.antt =====
-- Runs of the modelled code on concrete data, a module per part.
mod Vaults
mod Queues
mod Orgs
mod Checkers
mod Hooks
mod Entries
mod Replays
mod Downloads
mod Feeds
mod Switches
mod Deadlines
mod Tenants
