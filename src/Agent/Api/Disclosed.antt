-- ===== src/Agent/Api/Disclosed.antt =====
-- What stands for a rightful response to a process, and a task that wrote one.
use vm_authn_scope.Prelude.{◌≡◌, some, []}
use vm_authn_scope.Prelude.Result.{ok, err}
use vm_authn_scope.Prelude.Text.{Text}
use vm_authn_scope.Prelude.Dict.{Dict}
use vm_authn_scope.Prelude.Errors.{Bytes, IoError}
use vm_authn_scope.Proto.Wire.{WorkloadConfig}
use vm_authn_scope.Agent.Match.{Users, Process, match_workload}
use vm_authn_scope.Agent.Request.{X509Credentials}
use vm_authn_scope.Agent.Conn.{WorkloadResponse, success, error, PeerCred, Surroundings}
use vm_authn_scope.Agent.Conn.Peer.{IsPeer}
use vm_authn_scope.Agent.Conn.Written.{Says, nothing, response}
use vm_authn_scope.Agent.Api.{Ended}

-- What may be disclosed to a process as the credentials of an identity.
abbrev pub Disclosure : Type 1
Disclosure = Users → Process → Text → X509Credentials → Type 0

-- An error, or such credentials of the identity that the process of the peer is matched with.
unfoldable pub Rightful :
    Disclosure → Dict WorkloadConfig → Surroundings → PeerCred → WorkloadResponse → Type 0
Rightful V workloads around cred (error msg) = Unit
Rightful V workloads around cred (success creds) =
    (proc : Process) × IsPeer around cred proc
    × (identity : Text) × (match_workload around.users proc workloads ≡ some identity)
    × V around.users proc identity creds

-- What stands behind a task that came to its end.
pub data IsServed (V : Disclosure) (workloads : Dict WorkloadConfig) : Ended → Type 0 where
  unknown :
      (end : Ended) (e : IoError)
      → end.task.peer_cred ≡ err e
      → end.task.stream.outgoing ≡ []
      → IsServed V workloads end
  known :
      (end : Ended) (cred : PeerCred)
      → end.task.peer_cred ≡ ok cred
      → Says end.around (Rightful V workloads end.around cred) end.task.stream.outgoing
      → IsServed V workloads end

pub Says-mono :
    (around : Surroundings) (P Q : WorkloadResponse → Type 0) {x : Bytes}
    → ((resp : WorkloadResponse) → P resp → Q resp)
    → Says around P x
    → Says around Q x
Says-mono around P Q imp nothing = nothing
Says-mono around P Q imp (response resp out n due encodes) =
    response resp out n (imp resp due) encodes

Rightful-mono :
    (V U : Disclosure) (workloads : Dict WorkloadConfig) (around : Surroundings) (cred : PeerCred)
    → ((users : Users) (proc : Process) (identity : Text) (creds : X509Credentials)
        → match_workload users proc workloads ≡ some identity
        → V users proc identity creds
        → U users proc identity creds)
    → (resp : WorkloadResponse) → Rightful V workloads around cred resp
    → Rightful U workloads around cred resp
unfolding Rightful
Rightful-mono V U workloads around cred imp (error msg) h = tt
Rightful-mono V U workloads around cred imp (success creds) (proc, is_peer, identity, found, v) =
    (proc, is_peer, identity, found, imp around.users proc identity creds found v)

pub IsServed-mono :
    (V U : Disclosure) (workloads : Dict WorkloadConfig)
    → ((users : Users) (proc : Process) (identity : Text) (creds : X509Credentials)
        → match_workload users proc workloads ≡ some identity
        → V users proc identity creds
        → U users proc identity creds)
    → (end : Ended) → IsServed V workloads end
    → IsServed U workloads end
IsServed-mono V U workloads imp _ (unknown end e fails silent) = unknown end e fails silent
IsServed-mono V U workloads imp _ (known end cred is_known says) =
    known end cred is_known
      (Says-mono end.around _ _ (Rightful-mono V U workloads end.around cred imp) says)
