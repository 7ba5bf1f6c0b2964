-- ===== src/Lib.antt =====
-- The C programs of the systems projects, as executable definitions and theorems about them.
--
-- Project 1 is a small machine monitor with a logging device, the guest library that drives it,
-- and the same device as a vhost-user backend. Its parts are these.
--   Memory: the guest-physical map and `vmm_gpa_to_host` (project_1/emulator/vmm.h, vmm.c). Memory is a
--     function from addresses to bytes; little-endian loads and stores are written out by bytes.
--   LogStore: project_1/emulator/logstore.c. The mutex makes every call one step, so several
--     producers are one list of calls. LogStore.Records reads the file back.
--   Device: project_1/emulator/device.h and device.c. A handler maps the machine it sees (registers,
--     RAM, log) to the next; `none` is a write through a NULL pointer.
--   Vmm: project_1/emulator/vmm.c. The CPU is not modelled: a run is given the list of bus accesses
--     that the guest makes (32-bit stores and loads), and calls into the host the record of their
--     outcomes. An `int` is its 32-bit pattern.
--     Vmm.Files has the loaders.
--   Guest: project_1/guest/vlog.h and vlog.c, on top of Vmm's bus, in a state monad whose calls can
--     also halt the machine or crash the emulator. Guest.Programs has the sample programs
--     project_1/guest/test_log.c and test_nop.c; the addresses of their strings are given.
--   Virtq: project_1/vhost/virtq.h and virtio.c. A kick sees one snapshot of guest memory. The walk
--     over a chain runs on fuel, one unit for a descriptor; Virtq.Ends shows when it suffices. The
--     outer loop has 65537 rounds, one more than its 16-bit position can take.
--   Sink: project_1/vhost/sink.c, on top of LogStore.
--   Backend: project_1/vhost/backend.c, the kick around Virtq's handler. With EVENT_IDX it loops, here
--     for a given number of passes, between which the driver may write to memory; Backend.Events
--     is that loop, for a driver that keeps to its side of the queue. Backend.Watch is the table of
--     watched descriptors, and Backend.Main the callbacks and the loop of `main`, over what `poll`
--     returns and what the vhost-user transport asks for.
--   Netlog: project_1/emulator/netlog.c, on top of LogStore. A round of the listener is given what
--     `poll`, `accept` and `read` deliver; the slots of `pollfd` are carried from round to round.
--   Emulator: project_1/emulator/main.c, with the start and stop of netlog.c: the arguments, the
--     stages of a run and its exits. A collector is followed up to the signal that ends it.
--   Transports: the three ways into the log, which are Guest on Device, Sink and Netlog, side by side;
--     Transports.Init is project_1/vhost/guest/init.c, whose calls are listed.
--   Oracle: the test guest of project_1/tests/ag_guest.c, with its parameters (bootinfo.h), and the
--     reference model project_1/tests/oracle.c, which picks parameters from a seed and says what a correct
--     device makes of them. Oracle.Steps reasons about the guest's steps by what a test can observe.
--     The oracle's scenarios binsafe and stat are left out.
--
-- Project 2 is a container runtime.
--   Sys: what the runtime asks of the host, as actions that record each call and whether it succeeded;
--     the host may answer each call by all that came before it. `failed` is a return of -1.
--     Sys.Trace reasons about calls made in order, Sys.Avoid about calls not made, and Sys.Gate joins the
--     two. write_file is of project_2/runtime/util.c.
--   Seccomp: the filter program of project_2/runtime/container.c. The kernel's BPF machine is a
--     parameter, with the documented laws of the three instructions in use.
--   Container: project_2/runtime/container.h, container.c and net.c. Container has what the parent sets
--     up, Container.Setup what the init does to itself, Container.Life the two lifecycles. The system
--     call numbers, the architecture and the number of capabilities are the host's. Container.Args has
--     the arguments, of project_2/runtime/main.c.
--
-- Function runner, one program of which each project has a copy.
--   Runner: project_1/runner/runner.c to project_4/runner/runner.c. Runner.LogSink is the connection to a log
--     collector, whose `socket`, `connect` and `write` are given for each record; Runner.Functions
--     has `wordcount` and `sum`, whose loop has as many passes as the payload has bytes, and one;
--     Runner.Protocol the commands, Runner.Server the loop of `main` over what `accept` and `read` deliver, and
--     Runner.Args the arguments and the exit statuses. A signed number of 64 bits is its word in two's
--     complement; what an addition of `sum` leaves where it overflows, which C does not define, is an
--     argument, and the text of `runner_platform_info` is an argument, which Runner.Ukstats
--     (project_3/app/libukstats/ukstats.c) instantiates. Runner.Protocol.Collected joins the runner's log to
--     Netlog.
--
-- Not modelled: project_1/vhost/libvhost-user.c and standard-headers (copies of QEMU's and the kernel's),
-- the Unicorn engine, allocation, the console output of errors, the set-up checks of project_0, the
-- other tests, and the Python and shell tools.
pub mod Backend
pub mod Container
pub mod Device
pub mod Emulator
pub mod Guest
pub mod LogStore
pub mod Memory
pub mod Netlog
pub mod Oracle
pub mod Prelude
pub mod Runner
pub mod Seccomp
pub mod Sink
pub mod Sys
pub mod Transports
pub mod Virtq
pub mod Vmm
