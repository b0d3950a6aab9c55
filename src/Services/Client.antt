-- ===== src/Services/Client.antt =====
-- internal/kubernetes/client.go gives the services a client of the Kubernetes API. The API server is
-- not part of the program: it is a value of `Client`, whose calls read and change a `World` that the
-- program cannot look into. A service's action keeps a trace of its writes and its audit records.
use k8s_pod_manager_graphql.Prelude.{String, Bool, List, ◌∷◌, if◌then◌else◌}
use k8s_pod_manager_graphql.Services.Errors.{GoError}
use k8s_pod_manager_graphql.Services.Types.{
  OwnerReference, Pod, WorkloadObject, Namespace, ApiListOptions, PodOperationAudit,
  ScaleOperationAudit,
}

pub data Result {ℓ} (A : Type ℓ) : Type ℓ where
  ok : A → Result A
  err : GoError → Result A

-- What a Go function may do: return, or panic at run time
pub data Outcome (A : Type 0) : Type 0 where
  returned : Result A → Outcome A
  panicked : String → Outcome A

-- The two kinds of workload that can be scaled and rolled out
pub data WorkloadKind : Type 0 where
  deployment stateful_set : WorkloadKind

-- The API server
pub record Client (Q : Type 0) : Type 1 where
  pub World : Type 0
  pub get_pod : (namespace name : String) → World → Result (Pod Q) × World
  pub delete_pod : (namespace name : String) → World → Result (Unit {0}) × World
  -- the owner references of a ReplicaSet and of a Job
  pub get_replica_set : (namespace name : String) → World → Result (List OwnerReference) × World
  pub get_job : (namespace name : String) → World → Result (List OwnerReference) × World
  pub get_workload :
      WorkloadKind → (namespace name : String) → World → Result WorkloadObject × World
  -- the lists; the namespace "" stands for all
  pub list_pods : (namespace : String) → ApiListOptions → World → Result (List (Pod Q)) × World
  pub list_workloads :
      WorkloadKind
      → (namespace : String) → ApiListOptions
      → World
      → Result (List WorkloadObject) × World
  pub list_namespaces : ApiListOptions → World → Result (List Namespace) × World
  pub get_namespace : (name : String) → World → Result Namespace × World
  pub update_workload :
      WorkloadKind → (namespace : String) → WorkloadObject → World → Result WorkloadObject × World
  pub patch_workload :
      WorkloadKind → (namespace name patch : String) → World → Result (Unit {0}) × World

-- What a service does to the cluster and to the audit trail
pub data Effect : Type 0 where
  deleted_pod : (namespace name : String) → Effect
  updated : WorkloadKind → (namespace : String) → WorkloadObject → Effect
  patched : WorkloadKind → (namespace name patch : String) → Effect
  logged_pod : PodOperationAudit → Effect
  logged_scale : ScaleOperationAudit → Effect

-- The trace has the latest effect first.
pub record State (W : Type 0) : Type 0 where
  pub world : W
  pub trace : List Effect

abbrev pub Exec : Type 0 → Type 0 → Type 0
Exec W A = State W → A × State W

infixl 5 ◌>>=◌ ◌>>◌
abbrev pub ◌>>=◌ : {W A B : Type 0} → Exec W A → (A → Exec W B) → Exec W B
◌>>=◌ m f s = let (a, s') = m s in f a s'

abbrev pub ◌>>◌ : {W B : Type 0} → Exec W (Unit {0}) → Exec W B → Exec W B
m >> k = m >>= λ _. k

abbrev pub pure : {W A : Type 0} → A → Exec W A
pure a s = (a, s)

-- A call that only reads
abbrev pub read : {W A : Type 0} → (W → A × W) → Exec W A
read call s = let (a, w) = call s.world in (a, record s { world = w })

-- A call that writes, and leaves its mark on the trace
abbrev pub write : {W A : Type 0} → Effect → (W → A × W) → Exec W A
write e call s = let (a, w) = call s.world in (a, record { world = w; trace = e ∷ s.trace })

-- A call of the audit service, whose result the callers drop
abbrev pub audit : {W : Type 0} → Bool → Effect → Exec W (Unit {0})
audit enabled e s = (tt, if enabled then record s { trace = e ∷ s.trace } else s)

-- A test between two actions
infix 1 when◌run◌otherwise◌
abbrev pub when◌run◌otherwise◌ : {W A : Type 0} → Bool → Exec W A → Exec W A → Exec W A
when◌run◌otherwise◌ b m n s = if b then m s else n s
