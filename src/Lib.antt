-- ===== src/Lib.antt =====
-- The Splunk operator (kubernetes/splunk-operator), a Kubernetes controller in Go that keeps the
-- stateful sets, pods and secrets of Splunk deployments as their custom resources ask. Paths below are
-- from kubernetes/splunk-operator/pkg/splunk.
--
-- How the parts interact: the controller runtime calls Reconcile, which reads a custom resource and
-- calls the reconciler of its kind. That brings the namespace's secret and the versioned secrets up to
-- date, creates or updates the stateful set from its template, and has a pod manager update the pods.
-- UpdateStatefulSetPods decides on scaling and recycling, and asks the manager, which talks to Splunk's
-- REST API, whether a pod may go. A deleted resource is handled by its finalizers.
--
-- Where each part is:
--   Base         shared types: Boolean tests, lists, errors, int32 counts, texts and decimal numbers, maps
--   Cluster      the boundary: the objects of the Kubernetes API, the calls, the environment that answers
--                them, the actions that make them, and rules for what an action calls, returns and keeps
--   Common       common/names.go, common/util.go, common/types.go: names, owner references, slices, labels,
--                the validation of a Spec
--   Util         util/util.go, util/secrets.go: the calls with the errors they tolerate, tokens, owner
--                references, versioned secrets
--   Control      controller/*.go: merging of pod templates (Merge), UpdateStatefulSetPods (Pods), the rest
--                of statefulset.go (Statefulset), the Apply functions (Apply), finalizers and Reconcile
--   Enterprise   enterprise/*.go: instance names, the pod managers of search head clusters (SearchHeads,
--                ShcSecret) and of indexer clusters (Indexers, IdxcSecret), the removal of claims (Claims),
--                SmartStore's specification, texts, secrets and config map (SmartStore), the cluster
--                master's bundle push and its protocol (ClusterMaster), the URLs in the config map of the
--                monitoring console (MonitoringConsole)
--   Client       client/enterprise.go: the REST client over an HTTP transport
--   Scenarios    concrete runs
--
-- State and calls: an operation is an action on the caller's own state, such as the status of a custom
-- resource, and the history of the calls made. The environment is a record of functions from the history
-- to an answer, so that it may answer differently each time; it stands for the API server, the REST API
-- of Splunk, the clock, the random numbers and the operator's environment variables. In Client the own
-- state is the list of the requests sent, and http.NewRequest, the transport and json.Unmarshal are the
-- fields of a record. An action that panics in Go,
-- at an index out of range or at a write into a nil map, gives none. A function of the source has its
-- name in snake case. Objects have the fields that the code reads or writes; what it only copies or
-- compares as a whole is one text, its JSON.
--
-- Numbers: int32 counts and int64 values are integers with the wrap-around of the source where it can
-- occur. Loops recurse on the number of rounds or on the list, so there is no fuel.
--
-- Not modelled: the text that is logged, the order in which Go ranges over a map (the order of an
-- association list stands for it), the reconcilers of the kinds but for the SmartStore part of the
-- cluster master's, the building of pod templates from a custom resource, the stateful set of
-- the monitoring console, and the controller runtime. The pod managers call the REST API through the
-- environment, not through Client. strings.ToLower is on the letters of ASCII, which kinds are.
pub mod Base
pub mod Cluster
pub mod Common
pub mod Util
pub mod Control
mod Scenarios
pub mod Enterprise
pub mod Client
