-- ===== src/Lib.antt =====
-- TaskMaster: a daemon, taskmasterd, that runs the jobs of a configuration file, and a client,
-- taskmasterctl, that sends it commands over a Unix socket.
--
-- The parts, and the files that model them:
-- * Process (taskmasterd/src/jobs/Process.cpp): one child process, its pidfd and its timer. Process.antt
--   has every method; `start` includes the code of the forked child. Process/Frame, Process/Lifecycle,
--   Process/Events and Process/Willing hold the proofs.
-- * Job (taskmasterd/src/jobs/Job.cpp): the processes of one configuration. Job.antt has `start` and
--   `stop`, Job/Table.antt the status table; Job/Callbacks.antt has `onExit`, `onStop` and
--   `onProcessSurpassedStartTime`, which a process calls, and `JobManager::onStop`, which a job calls. A
--   `Process&` is a seat: the process, with the state of the job and the processes before and behind it.
-- * JobManager (taskmasterd/src/jobs/JobManager.cpp): the jobs by name. Manager.antt. The proofs about the
--   reload go one loop at a time: Manager/Rounds and Manager/Fitting are about the jobs and the kernel that
--   a loop leaves, Manager/Standing about a job's entry, Manager/Stops, Manager/Updates and Manager/Starts
--   about the loops, Manager/Applies about `reload` as a whole.
-- * Server (taskmasterd/src/ipc/Server.cpp): the check and the dispatch of a command. Server.antt;
--   Server/FromFile.antt puts the configuration file and the manager together.
-- * Timer and EventManager (taskmasterd/src/core): Timer.antt, System.antt.
-- * JobConfig (taskmasterd/include/jobs/JobConfig.hpp, src/jobs/JobConfig.cpp): Config.antt has the
--   settings and their comparison, Config/Settings.antt the view that it is compared with; Options.antt
--   has the parser of each option, Options/File.antt the constructor and `getJobConfigs`, whose result the
--   manager is made of and compared with. Signals: Signal.antt.
-- * The client's connection in the daemon (taskmasterd/src/ipc/Client.cpp): Session.antt. It reads a
--   command (Framing/Reader.antt), asks the server, and has the response written (Framing/Writer.antt).
-- * The main loop (taskmasterd/src/main.cpp) and `EventManager::handleEvents`: Loop.antt, over any
--   callbacks. Daemon/Objects.antt has the objects of the daemon, the manager and the server with its
--   clients, and finds the one that a callback is bound to; Daemon.antt has what each callback leads to,
--   and `main` with the constructors and destructors that it runs (taskmasterd/src/ipc/Server.cpp,
--   ~JobManager). The other files of Daemon hold the proofs; Daemon/Coming, Exits, Ending and Closing are about
--   ~JobManager, from the stop of the jobs to the last exit of a process.
-- * The sockets and their addresses (libs/ipc/src/Socket.cpp, Address.cpp, FileDescriptor.cpp):
--   Socket.antt, Socket/Address.antt, `System.close_fd`. Socket/Descriptor.antt has the objects that own a
--   descriptor, each at a place of its own, with their moves; an operation on an object that is not alive
--   does nothing there. Everywhere else a move is the passing on of a value.
-- * The logger (libs/logger): Logger.antt. The splitting of a command (libs/utils): Utils.antt; the job
--   takes it as a parameter.
-- * The framing (libs/ipc/include/ProtoWriter.hpp, ProtoReader.hpp), with the loops around it in
--   taskmasterctl/src/ipc/Client.cpp: Framing.antt.
-- * The client, taskmasterctl: the command line (src/cli/UserInput.cpp) is Cli.antt, the loop of `main`
--   with the connection, the sending and the answers (src/ipc/Client.cpp) Ctl.antt, the thread that
--   watches the socket (src/ipc/CheckSocketState.cpp) Ctl/Watch.antt, the completion of names
--   (src/main.cpp) Ctl/Completion.antt. Ctl/Talk.antt is the account that Ctl/Dialogue.antt compares the
--   loop with.
-- * The protocol (libs/ipc/proto/taskmaster.proto): Proto.antt, Response.antt, with the texts of the
--   responses in Response/Texts.antt; Ctl/Shown.antt puts them before the user of taskmasterctl.
-- * Both programs together, a command from the line of taskmasterctl through the daemon and back:
--   Exchange.antt.
--
-- How state and effects are modelled. A method runs on its object and on the system, and returns an
-- outcome beside both (Exec.antt): what was written before a throw stays written. The kernel is a
-- parameter, an arbitrary function from the system calls made so far and the next call to its answer, so
-- every theorem holds for every pattern of failures unless it says that the kernel refuses nothing
-- (`IsWilling`). The system holds the calls that were made, newest first, and the callbacks that are
-- registered with epoll. All callbacks of a process stand at the end of a method; the method returns the
-- call (`Process.Call`), and the job makes it. A bound callback is named by its process or client.
--
-- Numbers. `int32_t` is an integer; the only arithmetic on one is the count of restarts, whose wrap-around
-- is written out. Descriptors and pids are integers too, -1 being the failure.
--
-- Bounds and fuel. The loops run over lists, or over the number of processes. The decimal digits of an
-- index take fuel, one more than the index, which is above the number of its digits; the arguments of a
-- line take its length, since each takes a byte at least; the sending of a message takes one call for each
-- byte and one for the size at most, when the socket takes a byte in each.
--
-- The objects of the daemon are found by name: a callback of a process by the name of the process, one of
-- a client by its descriptor, `JobManager::onStop` by the configuration's name. `IsNamed` in
-- Manager/Names.antt says that the job found under a name is the one that carries it.
--
-- Not modelled: the texts of the daemon's log lines, the texts of its exceptions (a parameter of the texts
-- of the responses), `wordexp` behind `split_shell`, yaml-cpp (`Options.Yaml`), the generated codec of the
-- messages and the socket (parameters), the order in which an `unordered_map` is walked (the order of the
-- list, about which nothing is assumed), readline and its history file, the closing of what the manager
-- still holds when `main` has left its destructor, the moments at which signals come (the rounds of the
-- daemon's loop have the signals before the `switch` and those during the round; nothing else reads
-- `g_state`, so of the first only the last counts, and in the destructors none does), the thread of the
-- client as a thread (the flag that the threads share is an input of the steps), and the two system calls
-- of libs/utils, which the kernel answers.
pub mod Base
pub mod Proto
pub mod Exec
pub mod Utils
pub mod Logger
pub mod Signal
pub mod Config
pub mod Options
pub mod System
pub mod Socket
pub mod Timer
pub mod Process
pub mod Job
pub mod Response
pub mod Manager
pub mod Server
pub mod Framing
pub mod Cli
pub mod Ctl
pub mod Session
pub mod Loop
pub mod Daemon
pub mod Exchange
mod Tests
