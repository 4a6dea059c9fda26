-- ===== src/Tests.antt =====
-- The theorems at concrete inputs, and runs of the definitions on concrete data.
mod Data
mod Handlers
mod Answering
mod Nodes
mod Tables
mod Clusters
mod Programs
mod Replicas
mod Doubling
mod Cluster
mod Connections
mod Elections
mod Traffic
mod Plots
mod Services
mod Proposals
mod Entered
mod Rivals
mod Whole
mod Views
mod Ballots
mod Attempts
mod Worlds
mod Overlaps
mod Races
