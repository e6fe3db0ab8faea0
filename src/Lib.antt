-- ===== src/Lib.antt =====
-- The Python code of HoudiniLab: the dashboard that watches the temperatures of the Iris radios,
-- and the tools, drivers and demos that control and check them.
--
-- Common: numbers, integers, lists and texts that all parts share. A text is the list of its
-- character codes.
--
-- Dashboard, the code under WEBGUI:
--   Dashboard/Scan: iris_get_status.py, get_iris_sns_on_network. What the k-th run of
--     `SoapySDRUtil` prints is a function of k.
--   Dashboard/Sensors: iris_get_status.py, get_sensors. A device is a list of sensors, each with
--     its name and the answer of `readSensor`, none where it raises; opening a device is a
--     function of the serial, none where it raises. float() and "{:.2f}" are the interface
--     PyFloat, which Dashboard/Decimal fills with decimals.
--   Dashboard/Checks: iris_get_status.py, check_overheat and check_errors. None is the exception
--     of float(), which `or_test` raises only where Python evaluates the operand.
--   Dashboard/Emails: emails.py, the text of the two mails.
--   Dashboard/Monitor: renew.py, background_thread. A round maps what it reads to the events it
--     causes (sleep, emit, row, commit, mail) and whether the thread still runs; which rows the
--     database and which mails the server takes is part of what a round reads, and one that is
--     not taken ends the thread. The endless loop is a list of rounds, over which the theorems
--     go by induction.
--   Dashboard/Connect: renew.py, test_connect. The lock makes the handlers a sequence.
-- The monitor calls the scan, the report, the checks and the mails in the order of the source.
--
-- Agc, the automatic gain control of PYTHON/IrisUtils/agc_fsm_iris.py:
--   Agc/State: the attributes of the class and its gain table; powers are in thousandths of a dB.
--   Agc/Gains: its methods, in a monad of state and exceptions; what was written before an
--     exception stays written. Agc/Machine: the seven rules and the two triggers. The library
--     `transitions` is the interface Transitions, whose laws say which rule a trigger runs;
--     Agc/Dispatch fills it.
--   Agc/Frame: agc_thread of PYTHON/DEMOS/AGC_SIM_DEMO.py, which drives the machine with the
--     twenty readings of each frame.
--   Agc/Table, Agc/Step, Agc/Effects, Agc/Invariant, Agc/Errors, Agc/Sample, Agc/Progress,
--     Agc/Liveness and Agc/Skipped prove what holds of them; Agc/Tests runs them.
--
-- Health, the test of the radios in PYTHON/IrisUtils/iris_health_monitor.py:
--   Health/Irises: prepare_irises, with its exceptions as results (Health/Result). Health/Gains:
--     set_gain_limits and the range of a sweep. Health/Receiver, Health/Transmitter:
--     test_receiver and test_transmitter; what a pair of radios measures is a function of the
--     unit, the channel and the gain. Health/Session: iris_health_monitor, where a local variable
--     that has no value is none.
--     Health/Logs and Health/TxLog: process_rx_log and process_tx_log, on rows of numbers.
--   Health/Frontends, Health/Limits, Health/Sweep, Health/Rows, Health/Verdicts, Health/Channel,
--     Health/Broadcast, Health/Report, Health/LogAxes and Health/TxAxes prove what holds of them;
--     Health/Tests and Health/LogTests run them.
-- The session prepares the units, which both tests sweep, and reports what the tests decide.
--
-- Ofdm, PYTHON/IrisUtils/ofdmtxrx.py:
--   Ofdm/Constellation: the modulators and demodulators. A point is in thousandths of the unit of
--     its constellation, 1/sqrt(2), 1/sqrt(10) or 1/sqrt(43), which is a common factor of the
--     points and of the thresholds. Ofdm/Symbols: generate_data, from the random data on, with
--     numpy's IFFT as a parameter.
--   Ofdm/Levels, Ofdm/Margin, Ofdm/Received and Ofdm/Link prove what holds of them; Ofdm/Tests
--     runs them.
--
-- Discovery, PYTHON/IrisUtils/FindArrays.py:
--   Discovery/Chains: testTriggers, the heads of the chains, their order and the report of a hub.
--     The hardware times are functions of the device that triggers and of the device that is read.
--   Discovery/Heads and Discovery/Hubs prove what holds of them; Discovery/Tests runs them.
--
-- Rssi, the registers and words of PYTHON/IrisUtils/digital_rssi.py, init_fncs.py and type_conv.py:
--   Rssi/Words: a word as the list of its bits, and Python's bitwise operations. Rssi/Registers: the
--     writes and the reading of digital_rssi.py. Rssi/Bounds and Rssi/Fields prove what holds of
--     them; Rssi/Tests runs them. Rssi/Setup: agc_init. Rssi/Conversions: type_conv.py, but for
--     cfloat2uint32.
--
-- Mimo, the driver of a base station and its clients, MATLAB/iris_py.py and MATLAB/mimo_driver.py:
--   Mimo/Calls: the calls of a device and the monad of the attributes, the calls and the exceptions.
--   Mimo/Iris, Mimo/Tdd and Mimo/Receive: the methods of Iris_py. A frequency is in quarters of the
--     unit of the sample rate, of which the code takes three quarters and two and a half times.
--     Mimo/Samples is the interface of numpy's samples. Mimo/Lifecycle: any method, by its name.
--   Mimo/Driver, Mimo/Schedule, Mimo/Frames, Mimo/Transmit, Mimo/Downlink and Mimo/Gains: the
--     methods of MIMODriver, as the calls of the radios' methods in their order, and what they
--     return. The answer to the k-th trigger of the base station is a function of k.
--   Mimo/Tdd/Start, Mimo/Receive/Complete, Mimo/Schedule/Aligned, Mimo/Schedule/Sounded,
--     Mimo/Frames/Good, Mimo/Transmit/Good, Mimo/Transmit/Rows, Mimo/Transmit/Full,
--     Mimo/Transmit/Raises and Mimo/Gains/Chosen prove what holds of them; Mimo/Tests runs them.
-- The driver calls the methods of its radios, whose results the frames keep.
--
-- Sounder, PYTHON/DEMOS/SOUNDER_TXRX.py:
--   Sounder/Plan: the schedules and settings of siso_sounder, and signal_handler. Sounder/Threads:
--     the two threads, for a list of reads or a number of frames while the flag is set.
--   Sounder/Aligned, Sounder/Bursts and Sounder/Files prove what holds of them; Sounder/Tests runs
--     them.
--
-- Calibration, PYTHON/IrisUtils/find_lts.py and PYTHON/IrisUtils/sample_offset_cal.py:
--   Calibration/Peaks: the peaks of a correlation, which is a list of numbers. Calibration/Votes: the
--     vote over the pilots and the writes to the boards.
--   Calibration/Pairs and Calibration/Aligned prove what holds of them; Calibration/Tests runs them.
--
-- Sequence, the LTS and the Zadoff-Chu sequence of PYTHON/IrisUtils/generate_sequence.py:
--   Sequence/Prefix: the cyclic prefix and the LTS. Sequence/Zadoff: the table of primes and the
--     subcarriers. Sequence/Prime and Sequence/Layout prove what holds of them; Sequence/Tests runs
--     them.
--
-- Csi, of PYTHON/IrisUtils/hdf5_lib.py and channel_analysis.py:
--   Csi/Pilots: samps2csi and samps2csi_large, the channel estimates of a recording, at once and in
--     chunks; the FFT is a parameter. Csi/Nodes: find_bad_nodes, where whether a node deviates from a
--     reference is a function of both; its loop has as many rounds of fuel as there are nodes, and
--     each round tries the next node.
--   Csi/Windows, Csi/Chunks and Csi/References prove what holds of them; Csi/Tests and Csi/NodesTests
--     run them.
--
-- Collector, PYTHON/IrisUtils/csi_lib.py:
--   Collector/Schedule: the schedules of the boards and the clients, and the times of the bursts of
--     collectCSI. Collector/Delays: sample_cal, where the offset of each node is given.
--   Collector/Slots, Collector/Bursts and Collector/Synced prove what holds of them; Collector/Tests
--     runs them.
--
-- Siso, PYTHON/DEMOS/SISO_OFDM.py, with cfo_correction of PYTHON/IrisUtils/ofdmtxrx.py:
--   Siso/Signal: the signal of txrx_app, around the samples of Ofdm/Symbols. Siso/Receiver: animate,
--     from the peak of the LTS to the windows of the symbols; the samples are of any type, and the
--     estimate of the frequency offset and the correction by it are parameters. Siso/Gains:
--     find_optimal_gain.
--   Siso/Picked, Siso/Windows, Siso/Received, Siso/Link and Siso/Errors prove what holds of them;
--     Siso/Tests runs them.
--
-- Recorder, PYTHON/IrisUtils/data_recorder.py and file_rdwr.py:
--   Recorder/Frames: the rows of a recording, and replay of PYTHON/DEMOS/SISO_RX.py, which averages
--     their power. Recorder/Pickled: the files of pickled values, of
--     which the conversion to numpy's uint32 is a parameter.
--   Recorder/Replayed proves what holds of them; Recorder/Tests runs them.
--
-- Loops are structural recursion on a list, a number of attempts, devices or bits that is given. Only
-- the range of a sweep counts down a number, its end, which bounds the gains below it, and the power of
-- two of an FFT is found in as many doublings as the length of the sequence, which reach it.
--
-- Not modelled: the C++ sounder and the code in MATLAB's language, which are other programs; plots, device
-- streams and file formats, which are input and output; the floating-point signal processing of numpy;
-- the database, the sockets and the mail server, of which the calls are events. numpy's rounding of
-- complex128 to the complex64 of the chunked estimates is a parameter.
pub mod Common
pub mod Agc
pub mod Calibration
pub mod Collector
pub mod Csi
pub mod Dashboard
pub mod Discovery
pub mod Health
pub mod Mimo
pub mod Ofdm
pub mod Recorder
pub mod Rssi
pub mod Sequence
pub mod Siso
pub mod Sounder
