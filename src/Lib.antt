-- ===== src/Lib.antt =====
-- Models of the Python programs of the Moonmachine image and of the tools beside it.
--
-- Components, the files that model them and the code they model:
--
--   * SleepGuard: files/usr/libexec/steam-inhibitor-guard.py. The record `Guard` holds the fields
--     of the class; `sync`, `targets`, `connected`, `message`, `timeout` and `finish` are its
--     methods, which return the new fields and the list of the calls they make. SleepGuard.World is
--     the GLib main loop: any registered callback may come next, with any answer of the libraries.
--     SleepGuard.Page is the script that runs in Steam's page, with its handles and timers.
--   * TvControl: examples/tv-control. TvControl itself is the connection of direct_av.py
--     (`connect`, `request`, `close`, `avr_command`, `avr_state`), TvControl.Standby is sleep_av.py
--     (`snapshot`, `guarded_off`, `run`), TvControl.Wol is `tv_wol`, TvControl.Wake has the tasks
--     of `wake`, and TvControl.Supervisor the loop that ends it; TvControl.Pairing is `main`. Every
--     await is answered by the next entry of a list, with a value or an exception, and the calls
--     are recorded in order.
--   * ImuClock: experimental/steam-controller/tester/imu_clock.py, `normalize` on bytes. The
--     sensor's times are 32 bits wide and wrap around.
--   * Gateway: experimental/steam-controller/windows-native/gateway.py, from the bytes of stdin to
--     the requests that reach the device and the lines that are printed.
--   * RunLab: experimental/steam-controller/tester/run-lab.py, the relay between the gateway and
--     the broker, which passes each report through ImuClock; RunLab.Session is what is around it.
--   * PerformanceDefault: files/usr/libexec/moonmachine-performance-default, over a map of files.
--   * Checkout: apps/checkout.py, the loop that unpacks the Python dependencies of a bundle;
--     Checkout.Fetch is the rest of it, the revisions of the forks and the checksum.
--   * SignaturePolicy: scripts/configure-signature-policy.py, the merge of one entry into the
--     policy.
--   * Setup: files/usr/libexec/moonmachine-setup. Setup.Disk is a map from paths to files, folders
--     and owners; Setup.Host and Setup.Seed have `plugin_digest`, `seed_streaming` and `seed` as
--     lists of steps on it, and Setup.Main the choice of the account and the commands. Setup.Steps
--     cuts a list of steps off anywhere, as a loss of power does, and Setup.View is the plugin as
--     its user sees it.
--   * Harness: the measuring programs of experimental/tuning (compare.py, render-compare.py,
--     thermal-test.py) and experimental/bore-thinlto (compare-bore.py, render-compare-bore.py), as
--     steps that may raise, with what their `finally` undoes. The machine answers from a record for
--     each turn.
--   * DiagnosticRelay: experimental/steam-controller/windows-native/relay.py, the lines that it
--     forwards, counts and logs; DiagnosticRelay.Replay is replay_test.py beside it.
--   * Install: apps/install.py, the steps that fill the image, and the default settings that Setup
--     reads.
--   * VrrDefaults: files/usr/libexec/moonmachine-vrr-defaults, the reaction to each line of xprop.
--   * Common: what the programs use of Python: bytes, UTF-8, hexadecimal and decimal numbers,
--     lines, JSON values and XML elements with the operations and exceptions of CPython.
--
-- Numbers: Python's integers are natural numbers where they cannot be negative, and an integer type
-- in JSON and in `int`. Times of the monotonic clock are milliseconds.
--
-- Loops: those over received messages, samples and chunks are recursion over the list of them, so
-- no fuel is needed. A list of messages that ends is a wait that times out. Of the loops with a
-- deadline in `wake`, a number says how many turns begin before it.
--
-- Not modelled: the operating system, the network and the libraries (D-Bus, libsoup, aiohttp, ssh),
-- whose answers are parameters; the log lines; a write of a file that is interrupted half way,
-- since in Setup a file is written in one step; what a child process does beside running and
-- ending; the order in which the tasks of `wake` take turns; and two calls that `asyncio.gather`
-- runs together, of which the television's is written first; and the digits of other scripts, which
-- `int` takes. Of the other programs of the repository, the test against the viewer, the test of a
-- kernel module and the latency tables are outside these models.
pub mod Common
pub mod SleepGuard
pub mod TvControl
pub mod ImuClock
pub mod Gateway
pub mod RunLab
pub mod PerformanceDefault
pub mod Checkout
pub mod Setup
pub mod Harness
pub mod DiagnosticRelay
pub mod SignaturePolicy
pub mod VrrDefaults
pub mod Install
