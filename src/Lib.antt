-- ===== src/Lib.antt =====
-- Time-sensitive packets: a formal model of the traffic classifier, of the traffic programs of its
-- testbed, and of the analysis of what they measure.
--
-- How the parts work together. The sender (workload/talker.py) sends numbered, time-stamped UDP
-- datagrams at a fixed interval. On the way out of each host the classifier (bpf/src/ts_classifier.c)
-- recognizes such packets, gives them a priority and may rewrite their DSCP. The flood
-- (workload/be_flood.py) and the sink (workload/udp_sink.py) are the load beside them. The receiver
-- (workload/listener.py) writes one row for each datagram, and prints loss figures. The analysis
-- (analysis/tsn_analysis) reads the rows of many runs, groups them by condition, computes
-- percentiles, loss, DSCP histograms and effect sizes, and compares the conditions.
--
-- Which file models which part:
--   Classifier       bpf/src/ts_classifier.c and ts_common.h. Defs: the configuration, the counters and
--                    the maps. Parse: `classify`, whose reads go through checked loads, so that `fault`
--                    is a read past data_end. Mark: `mark_dscp` over the three kernel helpers, which are
--                    a record `Kernel` with what bpf-helpers(7) says of them. Program: `ts_classifier`.
--                    The counters are one CPU's.
--   Harness          bpf/tests/bpf_harness.py: the frames of the tests, and the header checksum.
--   Bpfmaps          testbed/bpfmaps.py: the bytes of the configuration that it writes. Dump: the sums
--                    over the CPUs that it reads. Counters: the classifier's counters as bpftool prints
--                    them. Command: main, with the two calls of bpftool as parameters.
--   Workload         Listener, Talker, Flood, Sink: the loops of the four programs in workload. Clocks,
--                    sockets and interrupts enter as events or as streams of readings. Listener.Csv:
--                    the receiver's file. Totals: the figures at a program's end. Ranks: the
--                    percentiles that the sender and the receiver print.
--   Loader, Dataset  loader.py and dataset.py: from the rows of csv.DictReader to the cells.
--   Metrics          metrics.py. Loss, Dscp and Distribution.
--   Stats            stats.py. Effect: Cliff's delta. Bootstrap: the named statistics and the interval.
--                    Compare: the comparison of two samples, and the aggregate over runs.
--   Report           report.py: the figures of a condition and the summary. Markdown: its text, line by
--                    line. Dict and Json: its value as JSON.
--   Plots            plots.py: what the two figures show, as values.
--   Cli              cli.py: the three commands and main. What they write is a list of outputs, and what
--                    they use of the file system and the libraries is the record World.
--   Floats, Numpy    What is not in the repository: doubles, numpy, scipy. They are records of operations
--                    (FloatOps, IntArrays, FloatArrays, Generator), and records of the documented
--                    behaviour that theorems rely on; Plain and Sorting hold instances of them.
--                    `np.percentile` and `default_rng` may raise: a theorem that something returns
--                    asks for arguments that numpy takes.
--   Bytes, Base      Byte orders; lists, integers, texts, dicts as association lists, exceptions as the
--                    type Result.
--   Tests            The instances of the theorems on concrete input.
--
-- Numbers. Python's integers are natural numbers or the integers of Base.Int; int64 arrays are
-- unbounded, and the loader checks the range where it makes them. The fields of packets keep their
-- widths (packing raises out of range), and the counters wrap at 2 ** 64.
--
-- Fuel. The loop of `ip_checksum` has the sum itself as fuel, which shrinks in each round. The
-- bootstrap loop has one round more than resamples; for a positive chunk each round adds one or more.
-- The two rounds over VLAN tags are the code's own. All other loops run over a list.
--
-- Not modelled: sockets, the parsing of command lines, the wording of what the four traffic programs
-- print, their progress lines and the sender's drift log, drawing with matplotlib, the shell scripts,
-- the calls of bpftool, and bpf/tools/tcx_attach.c. A write of a file succeeds or raises at once. The formats of floats (`{x:.2f}`
-- and the like) and json.dumps are parameters. White space, digits and letters of texts are the ASCII
-- ones.
pub mod Base
pub mod Bytes
pub mod Floats
pub mod Numpy
pub mod Metrics
pub mod Stats
pub mod Loader
pub mod Dataset
pub mod Plots
pub mod Cli
pub mod Report
pub mod Workload
pub mod Classifier
pub mod Harness
pub mod Bpfmaps
mod Tests
