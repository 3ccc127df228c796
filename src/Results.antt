-- ===== src/Results.antt =====
-- The result scripts of experiments/results_repro: they read what an experiment has left in its
-- result directories, and print and write the tables of the figures.
pub mod Float
pub mod Average
pub mod Table
pub mod Calc
pub mod Single
pub mod Fs
pub mod Transform
pub mod Compare
pub mod Process
pub mod Latency
