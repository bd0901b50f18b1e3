-- ===== src/Lib.antt =====
-- egressip-ipam-operator: a Kubernetes operator that gives namespaces egress addresses from the CIDRs
-- of an EgressIPAM object, and hands these addresses to the nodes that carry them.
--
-- The parts of the program, and the files that model them:
--   Api                  the objects (api/v1alpha1/egressipam_types.go, and the fields that are used of
--                        namespaces, netnamespaces, host subnets and nodes)
--   Context              ReconcileContext (controllers/egressipam/reconcilecontext/reconcile_context.go)
--   Infra                the interface Infra of that file, and its instances. BareMetal:
--                        controllers/egressipam/baremetal/baremetal.go. Aws, with Secondary, Used,
--                        Capacity and Client: controllers/egressipam/aws/aws.go. Azure, with Addresses,
--                        Used and Client: controllers/egressipam/azure/azure.go. Used at the top: the
--                        loops that these two have in common. Provided: the three instances as one type.
--   Network              the types of Azure's SDK that the program reads and writes
--   Namespaces, Nodes, NetNamespaces, HostSubnets
--                        controllers/egressipam/{namespace,node,netnamespace,hostsubnet}.go
--   Ipam                 controllers/egressipam/ipam.go. Pool: sortIPs and what a pool of taken addresses
--                        is. Next: getNextAvailableIP. Namespaces: assignIPsToNamespaces, with child
--                        modules for the steps of its loops (Merged, Sorted, OnNodes, Cleaned, Steps)
--                        and for the whole (Pools, InUse). Buckets: getMinKey. Nodes: assignIPsToNodes.
--   Reconcile            controllers/egressipam/egressipam_controller.go: Reconcile,
--                        processReconcileContext, manageCleanUpLogic. Validity: IsValid. Load:
--                        loadReconcileContext. HostSubnets, Cycle: a whole cycle. Finalizer, CleanUp: the
--                        end of an EgressIPAM. Managed: steps whose error goes to ManageError.
--   CredentialRequest    createCredentialRequest and createOrUpdateResourceWithClient of that file
--   Metrics              updateMetrics of that file, with the gauges as maps
--   Watches              the event handlers of the four files above, and the predicates on update events
--   NamespaceController  controllers/namespace/namespace_controller.go
--
-- Names are those of the source in lower case, assignIPsToNamespaces as assign_ips_to_namespaces.
-- A loop is a function by clauses on the list that it goes over, so that nothing here needs fuel.
--
-- What the program takes from outside stands in two places. `Deps` has the functions of its libraries
-- (ipmath, go-set, the finalizers of operator-utils) and the orders that Go leaves open, that of a
-- `range` over a map and that of the goroutines of a loop; `IsLawful` says what they promise, and
-- Tests/Reference has a value that keeps these promises. `Services` (Effects) answers the calls of the
-- API server and of a cloud, given the log of the writes that were accepted so far; an `Action` maps a
-- log to a result and a longer log. The records `Ec2` and `Azure` are the answers of the two clouds to the
-- calls that read, and `Clouds` makes them from the credentials; the calls that change a network
-- interface are writes of the log. Effects has the lemmas on such actions: Inversion and Chains on
-- sequences, Goroutines and News on loops of goroutines, Carried on what a network interface of AWS is
-- asked to carry.
--
-- Go: Map is an association list for `map[string]V`, in which a missing key reads as the zero value
-- where the source reads it so. Net has `net.ParseIP`, `net.ParseCIDR`, `IP.String` and
-- `IPNet.Contains` for IPv4, where an address is its 32-bit value; a text of IPv6 is one that cannot be
-- parsed here. A result is a value, an error or a panic. A `multierror` keeps its first error. In
-- Reflect, values of different dynamic types are never deeply equal.
--
-- Of an instance of AWS the first network interface is read, as in the source. Of a machine of Azure all
-- primary interfaces are loaded and the last one is written. The cache of instance types, a variable of
-- the process, is an argument and a result.
--
-- Not modelled: the making of the clients of the clouds, the start-up of the manager and its registration of
-- watches and schemes, and logging. updateMetrics stands beside the cycle, which reads no gauge.
-- ManageError and ManageSuccess of operator-utils are parameters (`Services`), which give the error that
-- Reconcile returns; the status that they write is read by no part of the program and is not in the log.
-- The body of a goroutine is one step: goroutines run in any order, but their calls do not alternate.
mod Prelude
pub mod Go
pub mod Deps
pub mod Api
pub mod Context
pub mod Network
pub mod Effects
pub mod Infra
pub mod Namespaces
pub mod Nodes
pub mod NetNamespaces
pub mod HostSubnets
pub mod Ipam
pub mod Reconcile
pub mod CredentialRequest
pub mod Metrics
pub mod Watches
pub mod NamespaceController
mod Tests
