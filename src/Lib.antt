-- ===== src/Lib.antt =====
-- Verification of zonctl, the appliance lifecycle tool. The tool installs a K3s cluster with the
-- product on one or three servers, and upgrades, repairs and inspects it. Each part of it decides
-- on records: what the operator planned (the inventory), what an earlier run left on disk (the
-- journal and the receipts), and what the host and Kubernetes report. The development models
-- these decisions and the writes that make the records durable.
--
-- The parts, with the files that model them:
--
-- Topology/Inventory: internal/clustertopology/inventory.go. Inventory and Node are its structs;
--     validate, api_endpoints, bootstrap_api_endpoint, api_sans, has_node,
--     validate_local_address and load are its functions, and the loop of Validate is check_nodes
--     with its two maps as lists. Topology/Inventory/Fingerprint: Inventory.Fingerprint.
-- Topology/Bootstrap: internal/clustertopology/bootstrap_state.go, the receipt of a staged
--     cluster: validate, matches_substrate, matches. Topology/Bootstrap/Store:
--     LoadBootstrapState and SaveBootstrapState.
-- State, State/Endpoints: internal/state/state.go (the records) and internal/state/endpoints.go
--     (the API endpoints that a cluster receipt knows, accepts and gains).
-- Lifecycle/Atomic, Lifecycle/Journal: internal/lifecycle/atomic.go and journal.go. A disk is a
--     function from paths to contents; a call returns the trace of the disks behind each of its
--     system calls, so a crash is a prefix of the trace. The journal writes through
--     write_file_atomic.
-- K3s/Ownership, K3s/Config: internal/k3s/ownership.go (who owns the K3s on the host) and
--     config.go (the configuration that a server of the inventory gets).
-- K3s/Inspect: internal/k3s/inspect.go and status.go: the health of the cluster and its foreign
--     namespaces, from the texts that kubectl prints.
-- Cluster/Nodes, Cluster/Servers: internal/cluster/nodes.go and three_server.go, the checks of
--     the live cluster against the record and against the inventory. Kubectl holds the answers
--     of the commands; Cluster/Nodes/Commands: LabelInferenceNode and NodeUID.
-- Cluster/Enrollment: internal/cluster/enrollment.go, the signed authorization to join: Sign,
--     SignEmbeddedEtcd and Validate; its files (Cluster/Enrollment/Files).
--     Cluster/Enrollment/Signer: internal/cluster/key.go, LoadOrCreateSigner, which calls itself
--     where another process created the key first; the list of its attempts bounds that.
-- Evidence, Evidence/Sanitize, Preflight: internal/evidence/evidence.go (severity and the
--     segments of ids) and internal/preflight with internal/host/facts.go (the host against the
--     qualified baseline).
-- Verify: internal/verify: digests, sizes and signatures of files (Verify), VerifyArtifacts,
--     VerifyProvenance and EvaluateVulnerabilityPolicy (Verify/Artifacts, Verify/Provenance,
--     Verify/Vulnerability), and the loading of keys (Verify/Keys). Functions that collect
--     failures return a Report, the checks with the failures.
-- Backup: internal/backup: copyDir and the manifest file (Backup), create (Backup/Create),
--     Verify (Backup/Integrity) and restore (Backup/Restore). A run changes a World: the log of
--     the calls that change something, the files by path and the checks. Any call may fail, in
--     the light of the calls before it. Backup verifies with Verify and writes through
--     Lifecycle/Atomic.
-- Teardown, Teardown/Reset: internal/teardown/teardown.go: remove_k3s and uninstall,
--     factory_reset, with Uninstall of internal/zonctlhost/install.go. Teardown/Log and
--     Teardown/Steps hold the rules by which a log of calls is shown to obey a rule on each next
--     call.
-- ProductConfig/Identity, ProductConfig/Profiles: internal/productconfig/productconfig.go, the
--     name of the appliance on the LAN (ResolveApplianceIdentity), and the profiles with their
--     capabilities; catalog.go, ProfileCatalogFromDocument.
-- RecoverySet, RecoverySet/Store: internal/recoveryset/recoveryset.go, the manifest of a
--     recovery set, the check of its files, and its saving and loading.
-- Repair: internal/repair/repair.go, with the calls that it makes as a trace.
-- Upgrade: internal/upgrade. Upgrade/Version: version.go, the order of versions;
--     Upgrade/Version/Written: how a version of three numbers is written. The rest is Upgrade of
--     upgrade.go, in the order of its statements: the guards (Upgrade/Admission, with
--     internal/install/hostbaseline.go), what is prepared in front of the backup
--     (Upgrade/Preparation), the backup and what follows it (Upgrade/Transaction), the steps up
--     to Traefik (Upgrade/Foundation) and from the message broker to zonctl (Upgrade/Charts),
--     the state that is saved (Upgrade/Receipt), and rollback with failUpgrade (Upgrade/Undo,
--     Upgrade/Steps). Upgrade/Resolved: the methods of Resolved in internal/install/source.go.
--     Upgrade/Orchestration puts them together, and prepares the Plan, the variables that the
--     later steps read. A run changes the World of Upgrade/Host: the log of the calls into other
--     packages, the files, the checks, and what is pending for a rollback. backup.Create, Verify
--     and Restore run as modelled in Backup, on the same log.
-- Upgrade/Protocol: the phases of an upgrade, which call may be made in which, and how a run may
--     end; its children show that Upgrade keeps to it, by rules on what holds of the log behind
--     each step.
-- Images: internal/images/preload.go, what the importer reads of containerd, and WaitReady,
--     whose loop counts its listings: Images/Ready shows how many are enough.
-- HostDirs, Runtime: internal/hostdirs/hostdirs.go and internal/runtimeconfig/runtime.go.
-- Common: what the modules share: results with do blocks, lists with native lengths, sets of
--     texts, and the parts of Go's strings, regexp and hex that the source uses, written out on
--     texts that are valid UTF-8.
-- Tests: the development on concrete inputs.
--
-- Go's errors are the values of a Result, one constructor for each message, with what it quotes
-- where that is not an error of another package. A map that is only tested for membership is the
-- list of its keys. Loops are structural recursion on the list they range over, so there is no
-- fuel, save in WaitReady, which waits on the clock; splitVersion counts its three components.
-- Numbers are natural: the sizes of a host are not negative, and a component of a version is read
-- only behind a cut at the first minus sign and within the range of an int. A timestamp is its
-- distance from the zero time.
--
-- Parameters stand for code outside the repository: netip.ParseAddr, net.ParseIP with To4,
-- url.Parse, encoding/json, encoding/base64, encoding/pem, x509, ed25519, SHA-256, fmt's %d and
-- %q, path/filepath, the clock and the random ids, and the answers of kubectl, systemd and the
-- system calls. In an upgrade they also stand for the packages of the repository that it calls
-- and that have no model, such as the Helm and Kubernetes glue and the importer of images: each
-- call may answer anything, in the light of the calls before it. A theorem that relies on one of
-- them says so among its hypotheses: that the empty text is no address, that an address in dotted
-- form parses to itself, that a decoder reads back what the encoder wrote, that a signature
-- verifies under its own key, that the temporary file has a name of its own.
--
-- Not modelled: the orchestration of install, the module catalog and the values files of the
-- product, release bundles, the Helm and Kubernetes glue, the adapters of the operating system
-- and the command line. Texts that only the operator reads, such as the messages of preflight and
-- the values that the errors of an identity quote, and the clock's fields of a check are left
-- out.
pub mod Backup
pub mod Cluster
pub mod Common
pub mod Evidence
pub mod HostDirs
pub mod Images
pub mod K3s
pub mod Lifecycle
pub mod Preflight
pub mod ProductConfig
pub mod RecoverySet
pub mod Repair
pub mod Runtime
pub mod State
pub mod Teardown
pub mod Tests
pub mod Topology
pub mod Upgrade
pub mod Verify
