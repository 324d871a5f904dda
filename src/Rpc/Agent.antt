-- ===== src/Rpc/Agent.antt =====
-- The executor of internal/agent/executor/executor.go as the host agent that internal/agentgrpc serves.
use cluster_api_hypervisor.Common.{ℕ, String, ◌≡◌, sym, subst, List}
use cluster_api_hypervisor.Exec.{Error, Result, Exec}
use cluster_api_hypervisor.Exec.Rules.{IsPreorder, Moves, Moves-lift, Moves-bind}
use cluster_api_hypervisor.HostAgent.{
  Owner, Mutation, Capabilities, VmDesired, NetworkRequest, PortRequest, RootDiskRequest,
  ArtifactFile,
}
use cluster_api_hypervisor.Executor.{Executor, World}
use cluster_api_hypervisor.Executor.Steps.{WorldStep, world_order, step_rules}
use cluster_api_hypervisor.Executor.Ports.{
  ensure_port, delete_port, allocate_ip, release_ip, delete_network,
}
use cluster_api_hypervisor.Executor.PortJournal.{
  ensure_port-step, delete_port-step, publish_port-step, release_port-step,
}
use cluster_api_hypervisor.Executor.Publishing.{publish_port, release_port}
use cluster_api_hypervisor.Executor.Vms.{get_vm_of, stop_vm, delete_vm_of}
use cluster_api_hypervisor.Executor.VmLaws.{stop_vm-step, delete_vm-step}
use cluster_api_hypervisor.Executor.EnsureVm.{ensure_vm}
use cluster_api_hypervisor.Executor.Networks.{
  ensure_network, diagnostics, health, acquire_probe, release_probe,
}
use cluster_api_hypervisor.Executor.Artifacts.{prepare_root_disk, prepare_cidata, prepare_confext}
use cluster_api_hypervisor.Executor.EnsureSteps.{
  get_vm_of-step, ensure_vm-step, ensure_network-step, diagnostics-step, health-step,
  prepare_root_disk-step, prepare_cidata-step, prepare_confext-step,
}
use cluster_api_hypervisor.Rpc.{HostAgent}
use cluster_api_hypervisor.Rpc.Convert.{with_errors}
use cluster_api_hypervisor.Rpc.Remote.{Carries, carried, checked, remote, remote-Carries}

-- However an operation of the agent ends, it moves the state as R allows.
pub record MovesAll {S : Type 0} (R : S → S → Type 0) (agent : HostAgent S) : Type 0 where
  pub health : Moves R agent.health
  pub ensure_vm : (m : Mutation) (d : VmDesired) → Moves R (agent.ensure_vm m d)
  pub get_vm : (o : Owner) → Moves R (agent.get_vm o)
  pub stop_vm : (m : Mutation) → Moves R (agent.stop_vm m)
  pub delete_vm : (m : Mutation) → Moves R (agent.delete_vm m)
  pub ensure_network : (m : Mutation) (n : NetworkRequest) → Moves R (agent.ensure_network m n)
  pub delete_network : (m : Mutation) → Moves R (agent.delete_network m)
  pub ensure_port : (m : Mutation) (p : PortRequest) → Moves R (agent.ensure_port m p)
  pub delete_port : (m : Mutation) → Moves R (agent.delete_port m)
  pub allocate_ip : (m : Mutation) → Moves R (agent.allocate_ip m)
  pub release_ip : (m : Mutation) (ip : String) → Moves R (agent.release_ip m ip)
  pub publish_port : (m : Mutation) (guest host : ℕ) → Moves R (agent.publish_port m guest host)
  pub release_port : (m : Mutation) (guest host : ℕ) → Moves R (agent.release_port m guest host)
  pub diagnostics : (o : Owner) → Moves R (agent.diagnostics o)
  pub acquire_probe : (m : Mutation) (network : String) → Moves R (agent.acquire_probe m network)
  pub release_probe : (m : Mutation) (uid : String) → Moves R (agent.release_probe m uid)
  pub prepare_root_disk :
      (m : Mutation) (req : RootDiskRequest) → Moves R (agent.prepare_root_disk m req)
  pub prepare_cidata :
      (m : Mutation) (name : String) (files : List ArtifactFile)
      → Moves R (agent.prepare_cidata m name files)
  pub prepare_confext :
      (m : Mutation) (name : String) (files : List ArtifactFile)
      → Moves R (agent.prepare_confext m name files)

module _ {S : Type 0} {R : S → S → Type 0} (o : IsPreorder R) where
  Moves-with_errors :
      {A : Type 0} (f : Error → Error) (m : Exec S A) → Moves R m → Moves R (with_errors f m)
  unfolding with_errors
  Moves-with_errors f m k = record { at = k.at }

  Moves-checked :
      {A : Type 0} (verdict : Result (Unit {0})) (m : Exec S A)
      → Moves R m
      → Moves R (checked verdict m)
  Moves-checked verdict m k =
      Moves-bind o _ _ (Moves-lift o verdict) (λ _. Moves-with_errors carried m k)

  -- An action that is the same at each state moves the state the same way.
  Moves-same : {A : Type 0} (m n : Exec S A) → ((s : S) → m s ≡ n s) → Moves R n → Moves R m
  Moves-same m n h k = record { at = λ s. subst (λ x. R s x.1) (sym (h s)) (k.at s) }

  -- What is called remotely moves the state as the agent does.
  pub remote-MovesAll : (agent r : HostAgent S) → Carries agent r → MovesAll R agent → MovesAll R r
  remote-MovesAll agent r c k = record {
    health = Moves-same _ _ c.health (Moves-with_errors carried _ k.health);
    ensure_vm = λ m d. Moves-same _ _ (c.ensure_vm m d) (Moves-checked _ _ (k.ensure_vm m d));
    get_vm = λ p. Moves-same _ _ (c.get_vm p) (Moves-checked _ _ (k.get_vm p));
    stop_vm = λ m. Moves-same _ _ (c.stop_vm m) (Moves-checked _ _ (k.stop_vm m));
    delete_vm = λ m. Moves-same _ _ (c.delete_vm m) (Moves-checked _ _ (k.delete_vm m));
    ensure_network =
        λ m n. Moves-same _ _ (c.ensure_network m n) (Moves-checked _ _ (k.ensure_network m n));
    delete_network =
        λ m. Moves-same _ _ (c.delete_network m) (Moves-checked _ _ (k.delete_network m));
    ensure_port = λ m p. Moves-same _ _ (c.ensure_port m p) (Moves-checked _ _ (k.ensure_port m p));
    delete_port = λ m. Moves-same _ _ (c.delete_port m) (Moves-checked _ _ (k.delete_port m));
    allocate_ip = λ m. Moves-same _ _ (c.allocate_ip m) (Moves-checked _ _ (k.allocate_ip m));
    release_ip = λ m x. Moves-same _ _ (c.release_ip m x) (Moves-checked _ _ (k.release_ip m x));
    publish_port =
        λ m g h. Moves-same _ _ (c.publish_port m g h) (Moves-checked _ _ (k.publish_port m g h));
    release_port =
        λ m g h. Moves-same _ _ (c.release_port m g h) (Moves-checked _ _ (k.release_port m g h));
    diagnostics = λ p. Moves-same _ _ (c.diagnostics p) (Moves-checked _ _ (k.diagnostics p));
    acquire_probe =
        λ m x. Moves-same _ _ (c.acquire_probe m x) (Moves-checked _ _ (k.acquire_probe m x));
    release_probe =
        λ m x. Moves-same _ _ (c.release_probe m x) (Moves-checked _ _ (k.release_probe m x));
    prepare_root_disk = λ m q.
        Moves-same _ _ (c.prepare_root_disk m q) (Moves-checked _ _ (k.prepare_root_disk m q));
    prepare_cidata = λ m x f.
        Moves-same _ _ (c.prepare_cidata m x f) (Moves-checked _ _ (k.prepare_cidata m x f));
    prepare_confext = λ m x f.
        Moves-same _ _ (c.prepare_confext m x f) (Moves-checked _ _ (k.prepare_confext m x f));
  }

module _ {N H : Type 0} (e : Executor N H) where
  allocate_ip-step : (m : Mutation) → Moves WorldStep (allocate_ip e m)
  unfolding allocate_ip
  allocate_ip-step m = search step_rules depth 10

  release_ip-step : (m : Mutation) (ip : String) → Moves WorldStep (release_ip e m ip)
  unfolding release_ip
  release_ip-step m ip = search step_rules depth 10

  delete_network-step : (m : Mutation) → Moves WorldStep (delete_network e m)
  unfolding delete_network
  delete_network-step m = search step_rules depth 10

  acquire_probe-step : (m : Mutation) (x : String) → Moves WorldStep (acquire_probe e m x)
  unfolding acquire_probe
  acquire_probe-step m x = search step_rules

  release_probe-step : (m : Mutation) (x : String) → Moves WorldStep (release_probe e m x)
  unfolding release_probe
  release_probe-step m x = search step_rules

  -- The Executor as a HostAgent.
  abbrev pub executor_agent : HostAgent (World N H)
  executor_agent = record {
    health = health e;
    ensure_vm = ensure_vm e;
    get_vm = get_vm_of e;
    stop_vm = stop_vm e;
    delete_vm = delete_vm_of e;
    ensure_network = ensure_network e;
    delete_network = delete_network e;
    ensure_port = ensure_port e;
    delete_port = delete_port e;
    allocate_ip = allocate_ip e;
    release_ip = release_ip e;
    publish_port = publish_port e;
    release_port = release_port e;
    diagnostics = diagnostics e;
    acquire_probe = acquire_probe e;
    release_probe = release_probe e;
    prepare_root_disk = prepare_root_disk e;
    prepare_cidata = prepare_cidata e;
    prepare_confext = prepare_confext e;
  }

  executor-MovesAll : MovesAll WorldStep executor_agent
  executor-MovesAll = record {
    health = health-step e;
    ensure_vm = ensure_vm-step e;
    get_vm = get_vm_of-step e;
    stop_vm = stop_vm-step e;
    delete_vm = delete_vm-step e;
    ensure_network = ensure_network-step e;
    delete_network = delete_network-step;
    ensure_port = ensure_port-step e;
    delete_port = delete_port-step e;
    allocate_ip = allocate_ip-step;
    release_ip = release_ip-step;
    publish_port = publish_port-step e;
    release_port = release_port-step e;
    diagnostics = diagnostics-step e;
    acquire_probe = acquire_probe-step;
    release_probe = release_probe-step;
    prepare_root_disk = prepare_root_disk-step e;
    prepare_cidata = prepare_cidata-step e;
    prepare_confext = prepare_confext-step e;
  }

  -- However any request to the host agent ends, called through the client, the server and the executor,
  -- and whatever k8netd, Cloud Hypervisor, systemd, the file system and SQLite answer: no row leaves
  -- the journal, each keeps its request, a row with an outcome is unchanged, and keys stay unique.
  pub remote_executor-MovesAll :
      (configured : Capabilities) → MovesAll WorldStep (remote executor_agent configured)
  remote_executor-MovesAll configured =
      remote-MovesAll world_order executor_agent (remote executor_agent configured)
        (remote-Carries executor_agent configured) executor-MovesAll
