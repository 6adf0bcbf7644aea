-- ===== src/Examples.antt =====
-- Tests and instances of the theorems.
mod Trees
mod Jobs
mod Documents
mod Turns
mod Deltas
mod Paths
mod Queries
mod Policies
mod Deletions
mod Scopes
mod Threads
mod Sessions
mod Stores
mod Workers
mod Builds
