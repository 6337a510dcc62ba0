-- ===== src/Lib.antt =====
-- BOOTMUX: the programs that keep a Mac safe around a BOOTMUX USB bridge.
--
-- A BOOTMUX bridge is a USB device that shows itself as a network interface in 10.77.0.0/24. The
-- network guardian, scripts/macos/bootmux-network-guardian.py, watches for what such a bridge leaves
-- behind on a Mac (routes, an enabled service, changed DNS and order) and puts the Mac back.
--
-- The files of the guardian:
--   Guardian/Data       the constants, `Command`, `RepairPlan`, `IdentityResult` and the dicts
--   Guardian/Host       `class Host`, a record of observations and of `run`
--   Guardian/Address    `_iface_in_bootmux_net` with the parsing of an IPv4 address
--   Guardian/Identity   `prove_identity`; laws in Identity/Policy
--   Guardian/Plan       `build_repair_plan`, with R1 in Plan/Routes, R2 in Plan/Service, R3 in
--                       Plan/Ipv4, R4 in Plan/Dns, R5 in Plan/Order and R6,
--                       `build_wifi_toggle_plan`, in Plan/Toggle; laws in Plan/Permitted
--   Guardian/Emits      rules for the commands of a plan
--   Guardian/Execute    `execute_plan`; laws in Execute/Total
--   Guardian/Baseline   `host_is_clean`, `capture_baseline`, `redact_baseline`
--   Guardian/Store      `class StateStore`; laws in Store/RoundTrip
--   Guardian/SystemHost `class SystemHost`, an instance of Host over the replies of commands;
--                       SystemHost/Devices, SystemHost/Tables and SystemHost/Wifi read what the
--                       commands print, and laws are in SystemHost/RoundTrip, SystemHost/Defaults
--                       and SystemHost/Enabled
--   Guardian/Uninstall  `uninstall_guardian`; laws in Uninstall/Scope
--   Guardian/Verify     `verify` and `classify`; laws in Verify/Agreement
--   Guardian/FakeHost   `class FakeHost`, an instance of Host; laws in FakeHost/Routes
--   Guardian/Repair     `repair_once`; laws in Repair/Truthful
--   Guardian/Daemon     `class Guardian`; Daemon/Steps is its step relation, and laws are in
--                       Daemon/Safety and Daemon/StoreFaults
--   Guardian/Commands   `cmd_audit`, `cmd_status`, `cmd_capture_baseline`, `cmd_repair_now`; laws in
--                       Commands/Codes
--   Guardian/Tests      runs on the simulated host; Tests/RealMac runs on the output of a Mac
--
-- The flash runner, scripts/macos/bootmux-safe-flash-runner.py, writes safe firmware to a bridge, once
-- and behind a gate, with a shield around the Mac's network. Its files:
--   Runner/Data         the journal, the manifest, the runner's fields, and the record Bench
--   Runner/Ports        `is_rejected_device`, `detect_new_port`; laws in Ports/Detect
--   Runner/Flash        `build_flash_command`, `verify_flash_sha`
--   Runner/Shield       the steps that call the attach shield, and the fingerprints
--   Runner/Steps        the steps from the serial port to the gate; laws in Steps/Gate
--   Runner/Write        the flash, its verification and the inspection behind it
--   Runner/Run          `run`, `_run_preflight`, `resume`; laws in Run/Pipeline, Run/DryRun,
--                       Run/Gated and Run/Resume
--   Runner/Tests        runs on a bench
-- The attach shield, scripts/macos/bootmux-attach-shield.py, isolates the Mac's network for one session
-- before a bridge is attached, journals what it changes, and undoes it at the close. Its files:
--   Shield/Redact       `redact`
--   Shield/Parse        the parsers of networksetup and route output
--   Shield/Host         `class Host`, and computations that change a state
--   Shield/Baseline     `Baseline`, `capture_baseline`
--   Shield/World        `ShieldState`, the journal's entries, the fingerprint and the files
--   Shield/Journal      `MutationJournal`; laws in Journal/Entries, Journal/Rollback and
--                       Journal/Undoing
--   Shield/Fingerprint  `capture_fingerprint`, `compare_fingerprints`; laws in Fingerprint/Files
--   Shield/Location     the temporary network location
--   Shield/Quarantine   `identify_bootmux_services`, `quarantine_bootmux`; Quarantine/Pin has the
--                       packet filter's anchor and the split routes
--   Shield/Recovery     `run_recovery` and `detect_new_external_ethernet`
--   Shield/Session      `is_expired` and `close_session`; laws in Session/Close
--   Shield/Answers      what the commands print, as data
--   Shield/Arm          `cmd_arm` where no session is armed
--   Shield/Commands     the commands; laws in Commands/Bounds, Commands/Fresh and
--                       Commands/Lifecycle, which has the life cycle as a relation
--   Shield/Daemon       `daemon_loop`, `cmd_daemon`; laws in Daemon/Watch, Daemon/Clock, which is
--                       about time, and Daemon/Liveness
--   Shield/Saved        which files each part leaves as they are
--   Shield/Tests        runs on a small Mac
-- The inspector, scripts/macos/bootmux-safe-flash-inspect.py, gives the verdict on the binaries of a
-- build that the runner's gate asks for: Inspector/Scan finds the printable strings of a binary,
-- Inspector has `inspect_artifact`, `inspect_build` and `verify_usb_identity`, with laws in
-- Inspector/Sound and runs in Inspector/Tests. The files and SHA-256 are parameters, and a binary is
-- its list of bytes. In the runner the inspector's report is still a parameter of the record Bench.
-- The generator, scripts/macos/generate-safe-manifest.py, writes the manifest that both the runner and
-- the inspector read: Generator has `detect_marker` and `generate_manifest`, over the files of a build;
-- Generator/Accepted puts the manifest before the inspector and the runner's gate, Generator/Order is
-- about the order of its artifacts, and Generator/Tests has runs.
-- The oracles look and judge: Oracle/Usb is scripts/macos/bootmux-usb-identity-oracle.py, with laws in
-- Usb/Hid and Usb/Live; Oracle/Serial is scripts/macos/bootmux-serial-marker-oracle.py; Oracle/Physical is
-- scripts/macos/bootmux-physical-oracle.py, which takes its snapshot through the guardian's
-- `capture_baseline`, with `compare_invariants` in Physical/Compare and laws in Physical/Unchanged.
-- Oracle/Selftest has the fixtures and checks of `selftest`, and Oracle/Tests has runs.
-- Helpers/Secret is `read_field` of scripts/bootmux-copy-local-wifi-secret.py, with laws in
-- Secret/RoundTrip and runs in Helpers/Tests.
-- The contract check, scripts/check-contract-sync.py: Contract has `normalize_prose` and
-- `_function_body`, with laws in Contract/Balanced; Contract/Profiles the checks of the readme and of the
-- safe and experimental profiles; Contract/Tests has runs.
-- Base has what the parts share: Boolean tests, lists, text, dicts; Base/Lines and Base/Search are what
-- is used of `str` and `re` on the output of commands, Lines/Printed is about lines that are printed and
-- read, and Base/Infix about a text within a text.
--
-- Repair/Daemon call Identity, Plan, Execute, Verify and Store; all of them see the Mac through the
-- record Host, which is a parameter, and the Mac's state changes by `run` alone. An observation is a
-- function of the state, so that two observations with no command between them agree.
--
-- What stands for what. A time is a number of milliseconds. A dict that is read by `.get` is a
-- record with optional fields; the JSON documents of the state directory are records too, with the
-- schema version and the unknown keys of the object beside the body; what is written comes back
-- with the keys of its dicts in order, as sort_keys leaves them. Lower case and `strip` are those
-- of ASCII. `ipaddress` is its documented parsing of dotted IPv4 addresses, and what it does not
-- parse is in no network. A file of the state directory has a kind, a mode, an owner and a parsed
-- content; writes do not fail for want of space or rights. Raises are values, and a function that
-- raises also gives the state in which it leaves the world. The loop of `run_daemon` runs over a
-- schedule of what the world does to the host before each tick. Loops are recursions on a list; the
-- digits of a number are taken in as many rounds as the number itself, which is enough.
--
-- On a real Mac, SystemHost's observations run commands that only look, and are taken to leave the Mac as
-- it is; a time-out is a reply. Regular expressions are functions that read a text from its start, with
-- the digits and white space of ASCII; a netmask has at most eight hexadecimal digits. The status and
-- netmask of an interface, which nothing reads, are left out. The name `evidence` in the state
-- directory is free or a directory's.
--
-- The generator's files do not change while it runs, its paths are relative and in normal form, and
-- its offsets are hexadecimal. A saved snapshot is a record of optional values: a value of another
-- type than the oracle writes, a 1 for true among them, counts as one that cannot be read, which is
-- a violation too. Of the report of a comparison the names of the violations are kept, not the
-- lines.
--
-- The runner sees the machine through the record Bench, which is a parameter: the shield's script,
-- the inspector, the serial ports, esptool and the files. A command, a wait or a scan may leave the
-- machine in another state. Commands end, and JSON is an object or fails to parse. A manifest has its
-- artifacts, each with its five keys, and a step's data in the journal has its keys, with the time
-- stamps left out. A port's name is one line of ASCII text.
--
-- The shield sees the Mac through its own record Host, a parameter: the Mac changes by commands, sleep
-- and the files that commands read. The files that the shield itself writes are a record beside it,
-- with what `json.loads` makes of each, so that what one call writes the next reads back. Commands end
-- and no write fails. The data and time stamps of log lines and the limit on a log's size are left
-- out. A journal object has its own counter; the world has that of the journal opened last, which is
-- the only one in use. `list(set(xs))` is in the order of the first occurrence. A text printed by a
-- command is a value of the type Answer. The daemon's loop has the number of rounds until a signal as
-- an argument.
--
-- Not modelled: the command lines (`main` with argparse) and the guardian's and shield's self-tests, whose
-- runs are among the tests here; signals; the relays (scripts/bootmux-vm-relay.py,
-- scripts/bootmux-proxy-forwarder.py, tools/bootmux_tcp_forward.py), which copy bytes between sockets;
-- the further checks of scripts/check-contract-sync.py, which are searches of the same kind; and the
-- parts of the product in other languages (companion, firmware, iphone, vm).
pub mod Base
pub mod Contract
pub mod Generator
pub mod Guardian
pub mod Helpers
pub mod Inspector
pub mod Oracle
pub mod Runner
pub mod Shield
