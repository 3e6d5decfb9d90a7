-- ===== src/Lib.antt =====
-- The sandbox manager: one microVM per user, with its inventory in Redis.
--
-- A request enters through internal/api, whose bearer token internal/store resolves to an identity.
-- internal/service decides on quota, admission and access, starts and ends VMs through internal/vm, and
-- keeps the inventory and the quota slots through internal/store and the users' disks through
-- internal/userhome; internal/sshrelay relays SSH connections to the VMs. internal/config reads the
-- settings that all of them start with.
--
-- What models what:
-- - Sandbox: the inventory record, its states and the identity of a caller (internal/store/store.go),
--   and the resources of a VM (internal/vm/manager.go).
-- - Redis: the commands, with their documented laws, the codec of the records, and the connection. A
--   request is delivered, refused, or carried out with its reply lost, as an arbitrary function of the
--   number of calls made so far decides; a deadline that has passed is a refused request.
-- - Store: the scripts and methods of internal/store/store.go (put_script is the transaction of Put,
--   fetch is Get, the others have their own names); Store.Tokens has ResolveIdentity. Store.Index,
--   Store.Filed, Store.Writes and Store.InStep are about the sets of ids, Store.Covers and Store.Requests about the records and slots
--   of running VMs, Store.Listing and Store.Quiet about the methods that only read.
-- - Relay: the map of listeners of internal/sshrelay/relay.go, with Ensure, Close, Retain and Connections.
--   Relay.Sessions is one listener's goroutines (serve, pipe, drop, close) as a state machine.
-- - Vm.Manager: the methods of internal/vm/manager.go, over Vm.Containerd, an interface of containerd,
--   Kata and the host, whose laws are what they document; Vm.Node is the log of the calls made.
--   Vm.Rollback, Vm.Starts, Vm.Launch and Vm.Lifecycle hold the proofs, and the manager as an instance
--   of Vm.
-- - Vm: the interface `vmManager` of internal/service/service.go with the laws that the service relies
--   on; Vm.Sizes has the sizes and ceilings of internal/vm/manager.go and the prices and home sizes of
--   internal/service/service.go.
-- - Vm.HomeDisk: homeDisk of internal/vm/manager.go over Vm.Devices, an interface of losetup and of Kata's
--   direct volumes; Vm.Loops follows the loop devices. Vm.Network: Network, over Vm.Plumbing, an interface
--   of `ip netns` and of go-cni. Vm.Processes has the processes that killFirecracker kills.
-- - Home: internal/userhome/userhome.go over Home.Tools, an interface of the file system and the ext4
--   tools, as an instance of the interface that the service uses; Home.Numbers reads the output of the
--   tools (lastNumber, blockSizeLine); Home.Keeps, Home.Shrunk and Home.Grown hold the proofs.
-- - Config: internal/config/config.go. Environment has loadDotEnv, env and envInt, Ssh has loadSSH and
--   validateSSHAuthURL, Load has Load; Rules has the rules that a configuration is to keep, apart from the
--   code's tests, and Checked shows that it does. fmt.Sscan, url.Parse, net.ParseIP and the order of a map are parameters.
-- - Backend: internal/backend/backend.go, over an interface of net/http and of the JSON decoder.
-- - Start: cmd/sandbox-manager/main.go, up to where the service is built.
-- - Text: strings.TrimSpace.
-- - Host: /proc/meminfo and the disk usage (internal/service/service.go), and the file limit
--   (cmd/sandbox-manager/rlimit_linux.go).
-- - Admission: `admit` and its release; Admission.Capacity has the creates in flight as a step relation.
-- - Service: World is the state and the calls of the other parts; Create is Create, a function for each
--   stretch between two calls that may fail; Teardown is Get, Delete, finishTeardown, staleDead,
--   teardownDead and reconcileUserSlot; Requests is AttachDevice, List, Exec, DeleteUserData and
--   Stats; Reconcile is the reconcile loop, and Ssh is PrepareSSH. Steps, Slots, Healing, Creation,
--   Listeners, Upkeep, Reads, Endpoint, Outcomes and Histories hold the proofs about them; Composed puts
--   the service on Vm.Manager.
-- - Api: the routes, the gates and the handlers of internal/api/api.go, with the status of each answer;
--   Api.Access and Api.Traffic hold the proofs.
-- - Tests: concrete runs, on a Redis in memory and on small models of the host.
--
-- The choices made: keys are constructors where the program concatenates texts, since ids are
-- hexadecimal. Costs are in 1/10000 USD. Numbers inside messages are left out, and so are logs. Times
-- are natural numbers, an arbitrary function of the calls made. The order in which Go walks a map is the
-- order of an association list. Nothing runs on fuel: every loop is over a list or a text. The mutexes
-- order calls, and one method runs at a time in Service; Admission.Capacity interleaves the creates.
--
-- A call of containerd or of the host may fail at any time, and a VM may die during any call; what is
-- assumed of them is the laws of Vm.Containerd: only a start, also one that reports a failure, starts a
-- task, labels stay, and no task runs without its container. A VM is said to run while its task does; the
-- Firecracker process, which Kata may leave behind, is told apart, and only a SIGKILL is said to end it.
-- That a create which fails has ended what it started is a law of Vm for the service; Vm.Lifecycle has it
-- where, after a Start that fails, task.Delete succeeds or else container.Delete does. The shared unpack
-- of several creates is one creation's own unpack here. JSON and the routing of net/http are taken as
-- done: a request is a route with its decoded body.
--
-- The interfaces of Vm.HomeDisk, Vm.Network and Home stand for programs of the host, which may fail at any
-- call; their laws say what each call does to the devices, the namespaces and the images. resize2fs
-- is trusted with a file system only where e2fsck has said that it needs no repair. The steps of
-- Vm.Containerd that attach a disk or set a network up are calls of that interface, not of these modules,
-- and the token that World mints is one of World, not of Backend.
--
-- Not modelled: the HTTP server and the ticker that main starts, the log files, and what is not Go.
pub mod Prelude
pub mod Sandbox
pub mod Redis
pub mod Store
pub mod Relay
pub mod Vm
pub mod Host
pub mod Text
pub mod Config
pub mod Admission
pub mod Service
pub mod Home
pub mod Backend
pub mod Api
pub mod Start
pub mod Tests
