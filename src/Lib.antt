-- ===== src/Lib.antt =====
-- Skyros is a replication protocol that defers the ordering of updates that do not externalize
-- state. This library models the experiment harness of the repository, which is the Python code
-- under experiments/, the lines of the C++ program that the harness reads or that read what it
-- writes, the log of a replica, its key-value store, and the messages that it counts for a quorum.
--
-- The parts and how they interact. A run of an experiment starts with experiments/remote-
-- throughput.py on one machine. It reads the addresses of the machines, writes the configuration
-- files, and starts the replicas and then the client script experiments/vrclient.py on other
-- machines, with commands that experiments/vr.py builds. The client script loads the store, starts
-- the clients of the benchmark, waits for them and prints their output, which becomes a result
-- file. The scripts of experiments/results_repro read the result files and print or write tables.
--
-- The files and the code they model:
--   * Base: Python values and errors, and what several parts share. Base/Text: strings, with
--     split, grep and startswith. Base/Decimal: str and int of a number. Base/Words: the split of
--     a line at its blanks. Base/Script: a script as a function from the events so far to a result
--     and the events after. Base/Checked: code without effects that may raise.
--   * Deploy/Context: the options of experiments/remote-throughput.py, their check and the name of
--     the output. Deploy/Options: the options with their defaults. Deploy/Ips: the reading of
--     internal_ips and external_ips. Deploy/Vr and Deploy/Vr/Commands: the directories, the
--     configuration files and the commands of experiments/vr.py. Deploy/Vr/Quorums: the quorums of
--     a cluster with such a configuration file. Deploy/Sut: the interface of experiments/sut.py,
--     with vr.py as a value of it. Deploy/Run: the helpers of experiments/remote-throughput.py
--     that act on other machines and on the output file. Deploy/Run/Load: load, and the writing of
--     the configuration files. Deploy/Run/Whole: the main part. Deploy/Run/Sane: what the check of
--     the options is good for. Deploy/Run/Order and the modules below it: what the steps do, one
--     after the other.
--   * Client: the arguments of experiments/vrclient.py. Client/Load: its loading phase, the check
--     of the load and the waits. Client/Launch: the measuring phase and the whole script.
--   * Results/Average: the lines with the word Average, the latency that each names, the mean
--     latency and the throughput, which all calc scripts of experiments/results_repro share.
--     Results/Average/Lines: which lines those are in a whole output file. Results/Table: the
--     files and the loop over runs. Results/Calc: calc.py of commutativity-compat, commutativity-
--     kv, rocksdb and ycsb. Results/Single: calc.py of micro-nilext-nonnilext and micro-read-
--     latest, calc_orig.py of micro-read-latest, calcexp2.py of micro-mixed-all and calcvrtput.py
--     of micro-nilext-only, with their points in Results/Single/Points and what they print in
--     Results/Single/Rows. Results/Latency: ycsb_latencies.py of ycsb and latencies.py of
--     commutativity-kv and micro-nilext-reads, with Results/Latency/Mixed on which lines count for
--     which class. Results/Fs: calc.py of commutativity-fs, with its tables in Results/Fs/Table.
--     Results/Latency/Classify: how parse.py (of ycsb, commutativity-kv and micro-nilext-reads,
--     three copies) reads the raw files of the benchmark, with the lines of operations and
--     latencies in Results/Latency/Classify/Raw and the lists that it makes in
--     Results/Latency/Classify/Partition; Results/Latency/Bench: the class BenchmarkClient of
--     src/skyros/bench/benchmark.cc, and the raw file that src/skyros/bench/client.cc writes, with
--     clients that take no more latencies in Results/Latency/Bench/Over, clients that do in
--     Results/Latency/Bench/Waiting and Results/Latency/Bench/Aligned, the file in
--     Results/Latency/Bench/File and a warm-up in Results/Latency/Bench/Warmup;
--     Results/Latency/Parse: what parse.py prints and writes. Results/Transform: transform.py of
--     ycsb and commutativity-kv. Results/Process: process.py of micro-nilext-reads, with its
--     reading in Results/Process/Rows and what it writes in Results/Process/Write and
--     Results/Process/Tables. Results/Compare: compare.py of micro-nilext-nonnilext and micro-
--     mixed-all, with what it prints in Results/Compare/Print and the tables that it reads in
--     Results/Compare/Tables. Results/Average/Notice: the line that src/skyros/bench/benchmark.cc
--     prints through src/skyros/lib/message.cc.
--   * Sources: update_machine of experiments/results_repro/update_sources_common.py.
--     Sources/Threads: threads that take turns. Sources/Whole: main of the same file, and the
--     update_sources.py of the ten experiments.
--   * Figures: draw.py of rocksdb, commutativity-compat, commutativity-fs and commutativity-kv and
--     draw_thrpt.py of ycsb as one program, with the five figures in Figures/Scripts.
--   * Protocol/Log: the log of a replica, src/skyros/common/log.cc, log.h and log-impl.h, with
--     Append, Find, SetStatus, SetRequest, RemoveAfter and Install. Protocol/Log/Numbered and
--     Protocol/Log/Find: what one operation does to a log whose entries have the numbers of their
--     places. Protocol/Log/Grown and Protocol/Log/Steps: sequences of operations.
--     Protocol/Log/Install and Protocol/Log/Agree: the taking over of a message.
--     Protocol/Log/Stale: the map from requests to numbers. Protocol/App: the class AppReplica of
--     src/skyros/common/replica.h, with AppUpcall, ReplicaUpcall, clearDurabilityLog and
--     addToDurabilityLogInOrder. Protocol/App/Pending: the updates that are not ordered yet.
--     Protocol/App/Reads: what a read is answered. Protocol/App/Orders, Protocol/App/Ordered and
--     Protocol/App/Settled: sequences of updates, orders and reads. Protocol/App/Lost: the
--     clearing of a view change. Protocol/Quorum: the class QuorumSet of
--     src/skyros/common/quorumset.h, over any type of ids whose test for equality finds equal ids
--     and no others. Protocol/Quorum/Maps: what an assignment does to a map.
--     Protocol/Quorum/Heard: sequences of messages, checks and clearings.
--   * Tests: the theorems at concrete inputs.
--
-- The state. A script has no state but its variables, which are arguments here, and what it does
-- to the outside, which is a list of events in order: lines printed, tables opened, written and
-- closed, commands started, waits, calls of the drawing library. Threads are an order of events in
-- which each thread keeps its own order. What comes from the outside is a parameter: the content
-- of the files, the replies of other machines (a function from the number of the poll), the
-- numbers of the module statistics and of floats (the record Floats, with the laws that a theorem
-- needs in the record Laws). A Python exception is the error of a result. A failed assertion in
-- C++, which aborts the replica, is none. A string is the list of the codes of its characters.
--
-- Bounds and fuel. A loop over a list or a range is recursion on it. The two loops that poll until
-- a reply says so take the greatest number of polls as an argument, and end with the error
-- still_running if that is too small: the check of the load never needs more than the eight that
-- the script grants it, and the wait for the clients needs one more than the polls at which the
-- clients are seen. Numbers are unbounded, as in Python; the numbers of log entries in C++ are
-- 64-bit integers, with their wrap-around written out, and the theorems about a log ask for room
-- below 2 ^ 64; the latency that the C++ program prints is below 2 ^ 64.
--
-- What is not modelled: the replication protocol in C++ (src/skyros), of which only the log, the
-- key-value store with its durability log, the set of messages that is counted for a quorum, the
-- size of a quorum, the client of the benchmark with its raw file and the printed line are here,
-- and of the log not Dump, the attached data, the map of the viewstamps of other shards and the
-- check that PARANOID adds, which the Makefile leaves off, of the store not the queue to the
-- background and the durability log in the order of its positions, and of the benchmark not the
-- delay between requests, the values, the interval reports and the statistics other than the
-- average; its baseline (src/paxos); the average and the percentiles of numpy and the order of
-- floats, which are parameters; the reading of the command line by argparse; the warnings that are
-- printed when a command writes to its error output; the zplot library, of which
-- experiments/results_repro has five copies, and the shell and the programs that it starts.
pub mod Base
pub mod Results
pub mod Deploy
pub mod Client
pub mod Sources
pub mod Figures
pub mod Protocol
pub mod Tests
