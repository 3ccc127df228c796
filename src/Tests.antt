-- ===== src/Tests.antt =====
-- The theorems at concrete inputs, and small runs of the definitions.
mod Results
mod Latency
mod Sources
mod Deploy
mod Client
mod Run
mod Tables
mod Percentiles
mod Figures
mod Fs
mod Protocol
mod Quorum
mod App
