-- ===== src/Agent/Api/Socket.antt =====
-- The socket of the Workload API.
use vm_authn_scope.Prelude.{◌≡◌, ◌≢◌, ◌↔◌, ◌⊎◌, [], none, some, text_eq, arith}
use vm_authn_scope.Prelude.Result.{ok}
use vm_authn_scope.Prelude.Text.{Text}
use vm_authn_scope.Ca.Files.{
  File, Fs, remove, bind, set_mode, put, remove_file, create_parent_dir, bind_socket,
  set_permissions, bind_new,
}
use vm_authn_scope.Agent.Api.{open_socket}

-- The system lets a socket be made at a path and its mode be changed, and removes what is there.
abbrev pub CanOpen : Text → Fs → Type 0
CanOpen path fs =
    (fs.refuses (bind path) ≡ none)
    × (fs.refuses (set_mode path) ≡ none)
    × ((fs.file path ≡ none) ⊎ (fs.refuses (remove path) ≡ none))

abbrev pub shared_socket : File
shared_socket = record { content = []; mode = 0o666 }

pub open_socket-ok :
    (path : Text) (fs : Fs)
    → CanOpen path fs
    → ((open_socket path fs).0 ≡ ok tt) × ((open_socket path fs).1.file path ≡ some shared_socket)
unfolding open_socket remove_file create_parent_dir bind_socket set_permissions put bind_new
open_socket-ok path fs can = ground arith

pub open_socket-eq-ok : (path : Text) (fs : Fs) → (open_socket path fs).0 ≡ ok tt → CanOpen path fs
unfolding open_socket remove_file create_parent_dir bind_socket set_permissions put bind_new
open_socket-eq-ok path fs h = ground arith

open_socket-others :
    (path other : Text) (fs : Fs)
    → other ≢ path
    → (open_socket path fs).1.file other ≡ fs.file other
unfolding open_socket remove_file create_parent_dir bind_socket set_permissions put bind_new
open_socket-others path other fs differs = ground arith

-- The start of the Workload API leaves a socket with mode 0666 at its path and goes on to its
-- loop exactly if the system grants the bind and the change of mode and the path is free or
-- what is there can be removed; in each case no other file changes.
pub open_socket_iff :
    (path other : Text) (fs : Fs)
    → other ≢ path
    → let (r, fs') = open_socket path fs in
      (((r ≡ ok tt) × (fs'.file path ≡ some shared_socket)) ↔ CanOpen path fs)
      × (fs'.file other ≡ fs.file other)
open_socket_iff path other fs differs = (
  (λ (opened, shared). open_socket-eq-ok path fs opened, open_socket-ok path fs),
  open_socket-others path other fs differs,
)
