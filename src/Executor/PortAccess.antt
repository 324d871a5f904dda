-- ===== src/Executor/PortAccess.antt =====
-- Who may act on a port: operations of internal/agent/executor/executor.go that name the resource of
-- another node, or a port of another owner.
use cluster_api_hypervisor.Common.{ℕ, String, false, ◌≡◌, ◌≢◌, some, arith, find, ◌==◌}
use cluster_api_hypervisor.Exec.{Result, ok, ◌>>=◌}
use cluster_api_hypervisor.HostAgent.{Mutation, PortRequest}
use cluster_api_hypervisor.Inventory.{NetworkResource, statement}
use cluster_api_hypervisor.Inventory.Resources.{
  owns_resource, holds_port, get_network_resource, read_network_resource,
  get_network_resource_by_port, read_resource_by_port,
}
use cluster_api_hypervisor.Executor.{Executor, World, on_store, is_no_rows}
use cluster_api_hypervisor.Executor.Ports.{
  claim_recorded, claim_port, ensure_port, delete_port_of, delete_port, allocate_ip, release_ip,
}
use cluster_api_hypervisor.Executor.Publishing.{publish_port, release_port}

-- The operation fails, and neither the tables nor k8netd change.
pub record IsDenied {N H A : Type 0} (w : World N H) (after : Result A × World N H) : Type 0 where
  pub refused : (a : A) → after.0 ≢ ok a
  pub same_tables : after.1.store.tables ≡ w.store.tables
  pub same_network : after.1.net ≡ w.net
  pub same_machine : after.1.machine ≡ w.machine

module _ {N H : Type 0} (e : Executor N H) (m : Mutation) (w : World N H) (row : NetworkResource)
    (recorded : find (owns_resource m.owner.installation_id m.owner.uid) w.store.networks
      ≡ some row)
    (elsewhere : (row.node_id == m.owner.node_id) ≡ false) where
  pub delete_port-IsDenied : IsDenied w (delete_port e m w)
  unfolding delete_port is_no_rows ◌>>=◌ on_store statement get_network_resource
      read_network_resource delete_port_of
  delete_port-IsDenied = record {
    refused = λ a. ground arith;
    same_tables = ground arith;
    same_network = ground arith;
    same_machine = ground arith;
  }

  pub publish_port-IsDenied : (guest host : ℕ) → IsDenied w (publish_port e m guest host w)
  unfolding publish_port ◌>>=◌ on_store statement get_network_resource read_network_resource
  publish_port-IsDenied guest host = record {
    refused = λ a. ground arith;
    same_tables = ground arith;
    same_network = ground arith;
    same_machine = ground arith;
  }

  pub release_port-IsDenied : (guest host : ℕ) → IsDenied w (release_port e m guest host w)
  unfolding release_port ◌>>=◌ on_store statement get_network_resource read_network_resource
  release_port-IsDenied guest host = record {
    refused = λ a. ground arith;
    same_tables = ground arith;
    same_network = ground arith;
    same_machine = ground arith;
  }

  pub allocate_ip-IsDenied : IsDenied w (allocate_ip e m w)
  unfolding allocate_ip ◌>>=◌ on_store statement get_network_resource read_network_resource
  allocate_ip-IsDenied = record {
    refused = λ a. ground arith;
    same_tables = ground arith;
    same_network = ground arith;
    same_machine = ground arith;
  }

  pub release_ip-IsDenied : (ip : String) → IsDenied w (release_ip e m ip w)
  unfolding release_ip ◌>>=◌ on_store statement get_network_resource read_network_resource
  release_ip-IsDenied ip = record {
    refused = λ a. ground arith;
    same_tables = ground arith;
    same_network = ground arith;
    same_machine = ground arith;
  }

  -- A caller on another node than the one that the resource of its UID is recorded on gets an error
  -- from each of DeletePort, PublishPort, ReleasePort, AllocateIP and ReleaseIP, and none of them
  -- changes a table, k8netd or the machine; this holds whichever statements SQLite fails.
  pub foreign_node-IsDenied :
      (guest host : ℕ) (ip : String)
      → IsDenied w (delete_port e m w)
        × IsDenied w (publish_port e m guest host w)
        × IsDenied w (release_port e m guest host w)
        × IsDenied w (allocate_ip e m w)
        × IsDenied w (release_ip e m ip w)
  foreign_node-IsDenied guest host ip = (
    delete_port-IsDenied,
    publish_port-IsDenied guest host,
    release_port-IsDenied guest host,
    allocate_ip-IsDenied,
    release_ip-IsDenied ip,
  )

-- EnsurePort of a port that the inventory records for another UID of the installation fails, and
-- changes no table, no state of k8netd and nothing on the machine.
pub ensure_port-IsDenied :
    {N H : Type 0} (e : Executor N H) (m : Mutation) (req : PortRequest) (w : World N H)
    → (row : NetworkResource)
    → find (holds_port m.owner.installation_id req.name) w.store.networks ≡ some row
    → (row.owner_uid == m.owner.uid) ≡ false
    → IsDenied w (ensure_port e m req w)
unfolding ensure_port is_no_rows ◌>>=◌ on_store statement get_network_resource_by_port
    read_resource_by_port claim_port claim_recorded
ensure_port-IsDenied e m req w row recorded foreign = record {
  refused = λ a. ground arith;
  same_tables = ground arith;
  same_network = ground arith;
  same_machine = ground arith;
}
