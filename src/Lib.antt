-- ===== src/Lib.antt =====
-- Verification library of cluster-api-hypervisor: a Cluster API provider that runs Kubernetes
-- clusters on Cloud Hypervisor virtual machines. A host agent on each node does the work there,
-- behind a gRPC protocol, and remembers it in a SQLite inventory; controllers and webhooks in the
-- management cluster drive it. Modelled are the agent's inventory and journal, all operations of its
-- executor, its ledger of installations, the gRPC transport, the controller of control planes, the
-- upgrade plan of a cluster, with its controller and its webhook, and the other webhooks.
--
-- The parts, and the files that model them:
--   Common                 names of the libraries, tests, and tables as lists (Common/Rows)
--   Exec                   Go methods that change state and may return an error: a function from a
--                          state to a result and a state, so that what was written before an error
--                          stays written; and rules for three kinds of statements about them
--                          (Exec/Rules: every end moves the state along a relation; Exec/Triple: what
--                          holds after a returned value; Exec/Ends: both)
--   HostAgent              internal/hostagent/hostagent.go: requests and their validation
--   Inventory              internal/agent/inventory: Journal is journal.go (BeginOperation,
--                          CompleteOperation), Resources is inventory.go (network resources,
--                          published ports, VMs), each statement with the constraints that
--                          queries/migrate.sql declares. JournalAnswers and JournalOutcomes state
--                          what the journal promises
--   Executor               internal/agent/executor/executor.go: Ports (EnsurePort, DeletePort,
--                          AllocateIP, ReleaseIP, DeleteNetwork), Publishing (PublishPort,
--                          ReleasePort), Vms (GetVM, StopVM, DeleteVM), EnsureVm, Networks
--                          (EnsureNetwork, Diagnostics, Health, the probes), Artifacts
--                          (PrepareRootDisk, PrepareCIDATA, PrepareConfext), Journal (begin,
--                          complete); the other files there hold proofs
--   Rpc                    the interface HostAgent of internal/hostagent/hostagent.go; Messages is
--                          api/agent/v1/agent.proto, Server, Client and Convert are
--                          internal/agentgrpc/server.go and client.go. Remote and Errors compare a
--                          remote agent with the agent itself, and Agent puts the executor there
--   ControlPlane           controllers/hypervisorcontrolplane_controller.go: Versions (the replacement
--                          of a Machine of another version), Machines, Readiness, Reconcile; Pki is
--                          the PKI Secret of controllers/hypervisorconfig_controller.go, and Server
--                          the API server as this controller sees it. Steps, MachineSteps,
--                          ReadinessSteps, Snapshots, DriftEnds, Guards and Safety follow what a
--                          reconcile deletes and records, and Runs what many of them do; First,
--                          Kubeconfig and Access are about the kubeconfig that a reconcile leaves,
--                          and Counts about the scale status
--   Ownership              internal/agent/ownership/ledger.go: the ledger of installations, its file and
--                          its binary search. Search, Sorting and Laws are about Owns, Register and
--                          Accepts about Register
--   Admission              the webhooks of clusters, machines, control planes and configurations in
--                          internal/webhook; Laws and Objects state what they admit
--   Upgrade                api/controlplane/v1alpha1/hypervisorupgradeplan_types.go; Api is the API
--                          server as the controller sees it; Versions, Calls and Reconcile are
--                          controllers/hypervisorupgradeplan_controller.go, and Webhook is
--                          internal/webhook/hypervisorupgradeplan_webhook.go. Edges states the moves
--                          of a plan; Reads, Looks, Begins and Progress prove them for one reconcile,
--                          Runs for many; Preflight is about the start of a plan; Pausing and
--                          PausingLaws follow the pause annotations, WebhookLaws the webhook
--   Examples               tests at concrete data
--
-- How the parts interact: an executor operation validates its request, then runs steps on three
-- states in turn (a World): the inventory's store, the state of the network daemon k8netd, and the
-- machine (systemd, the Cloud Hypervisor sockets, the files of the artifact root). The last two are
-- parameters: any function may stand for a call of them, and no theorem assumes anything of it. The
-- server of the transport calls such an agent, and the client is a host agent itself; the control
-- plane's controller takes any host agent.
--
-- What the model chooses:
--   * An error is the sentinel that errors.Is or errors.As finds; the words around it are left out.
--   * A statement of SQLite, or a call of the API server, may fail at any moment: a list of Booleans
--     in the state says which of the next ones do. One that fails writes nothing. An insert that a
--     constraint refuses is an error too.
--   * Numbers are natural numbers. A generation is a uint64 that SQLite stores as an int64, and is
--     taken to be below 2 ^ 63; currentStep, an int in Go, is taken not to be negative. The int32
--     that k8netd returns as a port is signed.
--   * Loops are structural recursion on the list that the source ranges over. Only sort.Search runs on
--     fuel, the length of its range, in which it ends.
--   * semver, the SHA-256 of a request, JSON, the setter of conditions, err.Error(), the parsing and
--     printing of addresses and numbers, and the rendering of a kubeconfig are parameters.
--   * The API server keeps one namespace; an object is found by its name. Between two reconciles
--     anything may change but the spec and the status of the plan, or the replacement in the status of
--     a control plane and the files of the state directory. An object that is deleted while it
--     has finalizers stays, marked; any other is gone. An upgrade plan goes with the finalizer of its
--     controller: finalizers of others are not modelled.
--   * A message of the gRPC transport arrives as it was sent, and a panic of the agent is no answer.
--
-- Not modelled: the opening and the migration of the database, owner references, events and watches of
-- the controllers, the column updated_at of three tables that nothing reads, the other controllers,
-- the webhook of machine templates, TLS, the encodings of messages and files, and the packages that
-- render files or start processes.
pub mod Common
pub mod Exec
pub mod HostAgent
pub mod Inventory
pub mod Ownership
pub mod Executor
pub mod Rpc
pub mod ControlPlane
pub mod Admission
pub mod Upgrade
pub mod Examples
