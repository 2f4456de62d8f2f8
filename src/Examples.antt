-- ===== src/Examples.antt =====
-- The theorems at concrete inputs: two backends with the weights 2 and 1, and the breakers,
-- requests and probes that may go with them.
mod Data
mod Configs
mod Limits
mod Systems
mod Balancing
mod Pools
mod Breakers
mod Requests
mod Probes
mod Reloads
mod Overlap
