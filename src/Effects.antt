-- ===== src/Effects.antt =====
-- Calls of the API server and of a cloud. Both are outside the repository: `Services` says what they
-- answer, given the writes that they have accepted so far. A write that is refused leaves no trace.
use egressip_ipam_operator.Prelude.{◌≡◌, refl, Option, none, some, List, [], ◌∷◌, ◌++◌, Text, Elem}
pub mod Inversion
pub mod Goroutines
pub mod News
pub mod Chains
pub mod Carried
use egressip_ipam_operator.Go.Results.{Error, Result, ok, err, panic}
use egressip_ipam_operator.Go.Maps.{Map}
use egressip_ipam_operator.Network.{Interface}
use egressip_ipam_operator.Api.{
  EgressIpam, Namespace, NetNamespace, HostSubnet, Node, CredentialsRequest,
}

pub data Write : Type 0 where
  update_namespace : Namespace → Write
  update_net_namespace : NetNamespace → Write
  update_host_subnet : HostSubnet → Write
  update_egress_ipam : EgressIpam → Write
  create_credentials_request update_credentials_request : CredentialsRequest → Write
  -- ec2.AssignPrivateIpAddresses and ec2.UnassignPrivateIpAddresses at a network interface
  assign_private_ips : Text → List Text → Write
  unassign_private_ips : Text → List Text → Write
  -- network.InterfacesClient.CreateOrUpdate, at a resource group and a name
  update_interface : Text → Text → Interface → Write

abbrev pub Log : Type 0
Log = List Write

pub record Services : Type 0 where
  pub answer : Log → Write → Option Error
  pub list_namespaces : Log → Result (List Namespace)
  pub list_nodes : Log → Result (List Node)
  pub list_host_subnets : Log → Result (List HostSubnet)
  pub list_net_namespaces : Log → Result (List NetNamespace)
  pub list_egress_ipams : Log → Result (List EgressIpam)
  -- `none` where the object is not found
  pub get_egress_ipam : Log → Text → Result (Option EgressIpam)
  pub get_namespace : Log → Text → Result Namespace
  pub get_net_namespace : Log → Text → Result NetNamespace
  -- GetOperatorNamespace
  pub get_operator_namespace : Log → Result Text
  -- the data of a secret, at a name and a namespace
  pub get_secret : Log → Text → Text → Result (Map Text)
  -- `r.ManageError(instance, e)` of github.com/redhat-cop/operator-utils writes the status of the
  -- EgressIPAM, and returns `e`, or the error of that write. `r.ManageSuccess(instance)` writes the
  -- status too. (The status is read by no part of the program, and has no place in the log.)
  pub manage_error : EgressIpam → Error → Log → Error
  pub manage_success : EgressIpam → Log → Result (Unit {0})
  -- the resource version of a credentials request, and `none` where it is not found
  pub get_credentials_request : Log → Text → Text → Result (Option Text)

abbrev pub Action : Type 0 → Type 0
Action A = Log → Result A × Log

module _ {A : Type 0} where
  abbrev pub pure : A → Action A
  pure a log = (ok a, log)

  abbrev pub lift : Result A → Action A
  lift r log = (r, log)

  abbrev pub reads : (Log → Result A) → Action A
  reads f log = (f log, log)

module _ {A B : Type 0} where
  abbrev pub continue : Result A → (A → Action B) → Action B
  continue (ok a) f log = f a log
  continue (err e) f log = (err e, log)
  continue panic f log = (panic, log)

  infixl 5 ◌>>=◌ ◌>>◌
  abbrev pub ◌>>=◌ : Action A → (A → Action B) → Action B
  ◌>>=◌ m f log = let (r, log') = m log in continue r f log'

  abbrev pub ◌>>◌ : Action A → Action B → Action B
  m >> n = m >>= λ _. n

abbrev answered : Option Error → Write → Action (Unit {0})
answered none w log = (ok tt, log ++ w ∷ [])
answered (some e) w log = (err e, log)

-- `r.GetClient().Update(...)` and the calls that change a cloud's network interface
unfoldable pub write : Services → Write → Action (Unit {0})
write services w log = answered (services.answer log w) w log

abbrev pub after_error : Error → Result (Unit {0}) × Log → Result (Unit {0}) × Log
after_error e (ok _, log) = (err e, log)
after_error e (err _, log) = (err e, log)
after_error e (panic, log) = (panic, log)

abbrev collect : Result (Unit {0}) → (Log → Result (Unit {0}) × Log) → Log → Result (Unit {0}) × Log
collect (ok _) rest log = rest log
collect (err e) rest log = after_error e (rest log)
collect panic rest log = (panic, log)

-- The goroutines of a loop, in the order in which they get to their call, and the `multierror` of
-- their errors, of which the first is kept. An error stops no other goroutine; a panic stops all.
unfoldable pub go_all : List (Action (Unit {0})) → Action (Unit {0})
go_all [] log = (ok tt, log)
go_all (m ∷ ms) log = let (r, log') = m log in collect r (go_all ms) log'
