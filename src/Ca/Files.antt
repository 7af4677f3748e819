-- ===== src/Ca/Files.antt =====
-- The calls of `std::fs` that the program makes, and the bind of a socket, on files with a content
-- and a mode. Which calls the system refuses, and with which error, is part of the state.
use vm_authn_scope.Prelude.{ℕ, [], Option, none, some, Bool, if◌then◌else◌, ◌==◌, text_eq}
use vm_authn_scope.Prelude.Result.{Result, ok, err}
use vm_authn_scope.Prelude.Io.{Io}
use vm_authn_scope.Prelude.Text.{Text, is_some}
use vm_authn_scope.Prelude.Errors.{IoError, not_found, addr_in_use}

pub record File : Type 0 where
  pub content : Text
  pub mode : ℕ

pub data Call : Type 0 where
  read remove create_parent write set_mode bind : Text → Call

pub record Fs : Type 0 where
  pub file : Text → Option File
  pub refuses : Call → Option IoError
  -- The mode of a new file: 0666 less the umask.
  pub new_mode : ℕ
  -- The mode of a new socket: 0777 less the umask.
  pub socket_mode : ℕ

-- The files with that of one path replaced.
unfoldable pub put : Text → Option File → (Text → Option File) → Text → Option File
put path f files p = if path == p then f else files p

-- `Path::exists`
abbrev pub exists : Text → Fs → Bool
exists path fs = is_some (fs.file path)

read_file : Option File → Result IoError Text
read_file none = err not_found
read_file (some f) = ok f.content

-- `fs::read_to_string`
unfoldable pub read_to_string : Text → Io Fs IoError Text
unfolding read_file
read_to_string path fs = elim (fs.refuses (read path)) [
  | some e ↦ (err e, fs)
  | none ↦ (read_file (fs.file path), fs)
]

-- A call that is refused changes nothing.
abbrev unless_refused : Call → (Fs → Fs) → Io Fs IoError (Unit {0})
unless_refused call act fs = elim (fs.refuses call) [
  | some e ↦ (err e, fs)
  | none ↦ (ok tt, act fs)
]

-- `fs::remove_file`
unfoldable pub remove_file : Text → Io Fs IoError (Unit {0})
unfolding put
remove_file path = unless_refused (remove path) (λ fs. record fs { file = put path none fs.file })

-- `fs::create_dir_all` of the parent of a path; directories are not modelled.
unfoldable pub create_parent_dir : Text → Io Fs IoError (Unit {0})
create_parent_dir path = unless_refused (create_parent path) (λ fs. fs)

-- `fs::write`: a file that exists keeps its mode.
abbrev written : Text → ℕ → Option File → File
written text mode none = record { content = text; mode = mode }
written text mode (some f) = record f { content = text }

unfoldable pub write_file : Text → Text → Io Fs IoError (Unit {0})
unfolding put
write_file path text =
    unless_refused (write path)
      (λ fs. record fs { file = put path (some (written text fs.new_mode (fs.file path))) fs.file })

-- `fs::set_permissions`
abbrev with_mode : ℕ → Option File → Option File
with_mode mode none = none
with_mode mode (some f) = some (record f { mode = mode })

unfoldable pub set_permissions : Text → ℕ → Io Fs IoError (Unit {0})
unfolding put
set_permissions path mode =
    unless_refused (set_mode path)
      (λ fs. record fs { file = put path (with_mode mode (fs.file path)) fs.file })

-- `UnixListener::bind`: the socket is a new file, and where there is a file already it fails.
unfoldable pub bind_new : Text → Option File → Io Fs IoError (Unit {0})
bind_new path (some f) fs = (err addr_in_use, fs)
bind_new path none fs = (
  ok tt,
  record fs { file = put path (some (record { content = []; mode = fs.socket_mode })) fs.file },
)

unfoldable pub bind_socket : Text → Io Fs IoError (Unit {0})
unfolding put bind_new
bind_socket path fs = elim (fs.refuses (bind path)) [
  | some e ↦ (err e, fs)
  | none ↦ bind_new path (fs.file path) fs
]
