-- ===== src/Lib.antt =====
-- A model of registration-operator, the two operators that install Open Cluster Management: one
-- keeps a hub as a ClusterManager asks, the other the agents of a managed cluster as a Klusterlet
-- asks.
--
-- Parts. Every controller is a function from what its listers and clients answer to an error and a
-- new state. A queue key (pkg/helpers/queuekey.go) says which object an event concerns; the
-- controller of that object then reconciles it. The controllers share pkg/helpers. The cluster
-- manager and klusterlet controllers apply and remove custom resource definitions by
-- pkg/operators/crdmanager, and the webhooks of the hub are served with the certificates that
-- pkg/certrotation keeps.
--
-- Common: errors, maps, lists and numbers. A Go function that returns `(T, error)` gives a `Result`,
--   one that returns `error` an `Option Error`. Maps are association lists.
-- Kube: the typed client of one kind of object, its documented behaviour as `IsLawful`, and a
--   cluster in memory that meets it.
-- Crd: pkg/operators/crdmanager/manager.go. `apply_one`, `apply`, `clean_one`, `clean` and
--   `should_update` are the functions of these names; the generic CRD type is a record over a spec.
-- Helpers: pkg/helpers. Generations and Related are the lists of a status, Features the feature
--   gates, Klusterlets the namespaces and replicas, Deletion `CleanUpStaticObject`, Apply
--   `ApplyDirectly`, `ApplyDeployment` and what these call, StatusUpdates the updates of a status,
--   QueueKeys queuekey.go.
-- Secrets: the secrets of pkg/helpers. Sync is `SyncSecret`, ClientConfig the reading of a kubeconfig,
--   Tokens sa_syncer.go, and Addon the controller of
--   pkg/operators/klusterlet/controllers/addonsecretcontroller.
-- Rotation: pkg/certrotation, a module for each of signer.go, cabundle.go and target.go;
--   Rotation/Controller is `sync` and `syncOne` of
--   pkg/operators/clustermanager/controllers/certrotationcontroller, with its map of rotations.
-- Klusterlet: pkg/operators/klusterlet/controllers/klusterletcontroller. Connectivity is `checkConnectivity`,
--   Teardown the `clean` methods of the reconcilers, Cleanup the `sync` of the cleanup controller,
--   Controller the configuration and the helpers of klusterlet_controller.go, and its `sync`.
-- Migration: the storage version migrations of
--   pkg/operators/clustermanager/controllers/migrationcontroller; Migration/Sync is its `sync`.
-- StoredVersions: pkg/operators/clustermanager/controllers/crdstatuccontroller.
-- Bootstrap: pkg/operators/klusterlet/controllers/bootstrapcontroller; `decide` is the part of its
--   `sync` that only reads, `reload_agents` what it then does.
-- Status: the conditions and, in Status/Sync, the `sync` of the two status controllers,
--   pkg/operators/klusterlet/controllers/statuscontroller and
--   pkg/operators/clustermanager/controllers/statuscontroller.
-- Ssar: pkg/operators/klusterlet/controllers/ssarcontroller. Its goroutines are steps of a relation, in
--   any order, over the locker that they share.
-- Manager: pkg/operators/clustermanager/controllers/clustermanagercontroller. Config and Files are what
--   is deployed, Reconcile the four reconcilers, each in a child module, Tokens
--   `ensureSAKubeconfigs`, Report the conditions and the finalizer, Sync the `sync`. The clusters'
--   state is that of the client of the definitions, and the cluster managers have their own.
--
-- Parameters. The Kubernetes API and its clients, library-go, x509, version comparison, the codec,
-- the rendering of manifests and the time package are arguments, with what they are documented to
-- do as hypotheses; each set of hypotheses has an instance among the tests. A delete of the API is
-- only accepted: a definition may stay until its finalizers are done, and a klusterlet that is being
-- deleted goes when its last finalizer does. What is written may come back with fields filled in where
-- a theorem has a relation for it; a write of a stale object is a conflict.
--
-- Bounds. Times and durations are natural numbers of nanoseconds and counts natural numbers; the
-- saturation of `time.Duration` at 292 years and the wrap-around of int32 counts are not modelled.
-- The digits of a number n are written with fuel n + 1, which is more than it has digits. A
-- status update makes up to four attempts, the steps of `retry.DefaultBackoff`; a theorem says when
-- they are enough. Every other loop is over a list.
--
-- Not modelled: events and logs, informers and start-up, the manifests, the retries and waits of
-- libraries, and so far the `reconcile` methods of the klusterlet's reconcilers, over whose interface
-- the klusterlet controller's `sync` is modelled, and the builder of the managed cluster's clients.
pub mod Common
pub mod Kube
pub mod Crd
pub mod Helpers
pub mod Rotation
pub mod Klusterlet
pub mod Migration
pub mod StoredVersions
pub mod Bootstrap
pub mod Status
pub mod Secrets
pub mod Ssar
pub mod Manager
