-- ===== src/Deploy.antt =====
-- experiments/remote-throughput.py and experiments/vr.py: one run of one experiment on the cluster.
pub mod Context
pub mod Ips
pub mod Vr
pub mod Run
pub mod Sut
pub mod Options
