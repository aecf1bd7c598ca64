-- ===== src/Lib.antt =====
-- Theatre: controllers and webhooks for Kubernetes, and the programs that use them.
--
-- Three parts of the program are modelled. The first keeps role bindings in step with directory
-- groups (internal/controller/rbac). The second runs consoles, which are jobs that a user starts from
-- a template and that may need the authorisation of others: the resources (api/workloads), the
-- controller that runs them (internal/controller/workloads), the webhooks that guard them
-- (internal/webhook/workloads), the client that creates, authorises and attaches to them
-- (pkg/workloads/console/runner) and the audit events that all of these publish
-- (api/workloads/v1alpha1/lifecycle_recorder.go). The third makes annotated pods run under
-- theatre-secrets (internal/webhook/vault), which puts secrets into their environment
-- (cmd/theatre-secrets). They stand on pkg/recutil, pkg/rbac and pkg/logging.
--
-- Prelude          booleans, texts, lists, maps, results and actions on a state
-- Kubernetes       the API's objects, and the API client as a record of operations
-- Rbac             pkg/rbac/subjects.go: Diff and IncludesSubject
-- Directory        internal/controller/rbac: DirectoryProvider, the cached, fake and Google directory
-- Recutil          pkg/recutil/reconcile.go: CreateOrUpdate, RoleDiff, DirectoryRoleBindingDiff and
--                  ResolveAndReconcile
-- DirectoryRoleBinding
--                  internal/controller/rbac/directoryrolebinding_controller.go: ReconcileObject
-- Console          api/workloads/v1alpha1: the resource, its phases and its lifetime; Console.Template
--                  is the template with its validation and its rules (helpers.go)
-- ConsoleAuthorisation
--                  internal/webhook/workloads/v1alpha1/console_authorisation_webhook.go, and
--                  isConsoleAuthorised of the console controller
-- ConsoleController
--                  internal/controller/workloads/console_controller.go: Defaults (setConsoleTTLs,
--                  setConsoleTimeout, getCommand), Status (calculateStatus and the audit events),
--                  Diffs (the diff functions), Names, Job (buildJob and the session recording),
--                  Access (roles, bindings and authorisation objects), Workloads (the cluster, and
--                  abort) and Reconcile
-- Recorder         api/workloads/v1alpha1/lifecycle_recorder.go and
--                  pkg/workloads/console/events/events.go: the audit events and their recorder
-- Runner           pkg/workloads/console/runner/runner.go: Finding (templates and consoles), Waiting
--                  (for a console and its role binding), Attaching (the container, the attachers and
--                  what follows) and Creating (Create, CreateResource and Authorise)
-- Vault            internal/webhook/vault/v1alpha1/secretsinjector_webhook.go
-- Secrets          cmd/theatre-secrets/main.go: the references in an environment, Fetching (reading
--                  them from Vault) and Running (the commands exec and install)
-- Webhooks         internal/webhook/workloads/v1alpha1: the authenticator, the template validation and
--                  the observer of attachments
-- Logging          pkg/logging: recorded log lines and label keys
-- Examples         sample objects, and the theorems at concrete inputs
--
-- State. A function that calls the API, a directory, Vault or the file system is an action: a state
-- to a result and a state. What the cluster stores is not modelled but asked of a client
-- (Recutil.Converge.IsStore: a read after a successful write finds what was written, up to what the
-- API fills in); Examples.Shelf has a client that satisfies it. The clients of the managers read from
-- a cache (cmd/rbac-manager and cmd/workloads-manager call mgr.GetClient), and IsStore is true of
-- them while the cache has every write. What the API makes of a JSON patch is asked of RFC 6902
-- (Runner.Creating.Composing.IsJsonPatch). A wait on a watch is asked of UntilWithSync
-- (Runner.Waiting.Watching.IsWatch: the precondition is asked of the store, then the condition of
-- each event until one is done or fails); Examples.Running has one that satisfies it. Errors are
-- values, among them the panics of a nil pointer and of an index out of range. Slices are lists, maps
-- are association lists, pointers are options, and times are nanoseconds. Where Go visits a map in no
-- fixed order, the model starts at its last entry.
--
-- Bounds. Every loop is structural: over lists, over texts, or over the ten pages that the Google
-- directory reads at most, so there is no fuel. Numbers are natural; the lifetimes and timeouts of the
-- resources are small enough that no sum leaves 64 bits.
--
-- Not modelled: the flags and the wiring of the command line programs, the building of clients, the
-- printing of tables, the publishing to Pub/Sub and the writing of log lines, which are I/O.
pub mod Prelude
pub mod Kubernetes
pub mod Rbac
pub mod Directory
pub mod Recutil
pub mod DirectoryRoleBinding
pub mod Console
pub mod ConsoleAuthorisation
pub mod ConsoleController
pub mod Recorder
pub mod Runner
pub mod Vault
pub mod Secrets
pub mod Webhooks
pub mod Logging
pub mod Examples
