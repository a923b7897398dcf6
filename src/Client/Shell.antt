-- ===== src/Client/Shell.antt =====
-- crates/latte-work-client/src/lib.rs: the arguments of `ssh`, and the command for the remote shell.
use Prim.Native.Char.{Char, code}
use latte_work.Common.{
  ℕ, String, len, concat, Bool, not, ◌&&◌, ◌||◌, List, [], ◌∷◌, ◌++◌, Option, none, some, ltb, leb,
  eqb, if◌then◌else◌, is_empty, any_char, decimal, starts_with, Result, ok, bail_if, ◌>>=◌, ◌>>◌,
}

pub data ShellError : Type 0 where
  invalid_host relative_server invalid_port invalid_identity no_askpass : ShellError

-- `s.replace('\'', "'\\''")`.
unfoldable pub quoted_body : String → String
quoted_body String.[] = ""
quoted_body (String.◌∷◌ c s) =
    if eqb (code c) b'\'' then concat "'\\''" (quoted_body s) else String.◌∷◌ c (quoted_body s)

unfoldable pub shell_quote : String → String
unfolding quoted_body
shell_quote s = concat "'" (concat (quoted_body s) "'")

-- ASCII letters and digits, and `._-@:`.
abbrev pub is_host_char : Char → Bool
is_host_char c =
    (leb b'0' (code c) && leb (code c) b'9')
    || (leb b'A' (code c) && leb (code c) b'Z')
    || (leb b'a' (code c) && leb (code c) b'z')
    || eqb (code c) b'.'
    || eqb (code c) b'_'
    || eqb (code c) b'-'
    || eqb (code c) b'@'
    || eqb (code c) b':'

unfoldable pub is_invalid_host : String → Bool
is_invalid_host h =
    is_empty h || ltb 255 (len h) || starts_with h "-" || any_char (λ c. not (is_host_char c)) h

unfoldable pub validate_host : String → Result ShellError (Unit {0})
unfolding is_invalid_host
validate_host h = bail_if (is_invalid_host h) invalid_host

-- Paths of a Unix system; whether there is a file is an argument.
abbrev pub is_absolute : String → Bool
is_absolute p = starts_with p "/"

unfoldable pub validate_identity_file : String → Bool → Result ShellError (Unit {0})
validate_identity_file path is_file =
    bail_if (not (is_absolute path) || not is_file) invalid_identity

pub data SshAuthentication : Type 0 where
  open_ssh : SshAuthentication
  identity_file : (path : String) → (is_file : Bool) → SshAuthentication
  password : (askpass socket : String) → SshAuthentication

-- A newline, a carriage return or NUL.
abbrev pub is_line_char : Char → Bool
is_line_char c = eqb (code c) 10 || eqb (code c) 13 || eqb (code c) 0

unfoldable pub is_invalid_server : String → Bool
is_invalid_server binary =
    (not (is_empty binary) && not (starts_with binary "/")) || any_char is_line_char binary

abbrev pub port_args : Option ℕ → Result ShellError (List String)
port_args none = ok []
port_args (some port) = bail_if (eqb port 0) invalid_port >> ok ("-p" ∷ decimal port ∷ [])

abbrev pub auth_args : SshAuthentication → Result ShellError (List String)
auth_args open_ssh = ok ("-o" ∷ "BatchMode=yes" ∷ [])
auth_args (identity_file path is_file) =
    validate_identity_file path is_file
    >> ok ("-o" ∷ "BatchMode=yes" ∷ "-o" ∷ "IdentitiesOnly=yes" ∷ "-i" ∷ path ∷ [])
auth_args (password askpass socket) =
    bail_if (not (is_absolute askpass) || not (is_absolute socket)) no_askpass
    >> ok (
        "-o" ∷ "BatchMode=no" ∷ "-o" ∷ "PreferredAuthentications=password,keyboard-interactive"
        ∷ "-o" ∷ "PasswordAuthentication=yes" ∷ "-o" ∷ "KbdInteractiveAuthentication=yes" ∷ "-o"
        ∷ "PubkeyAuthentication=no" ∷ "-o" ∷ "NumberOfPasswordPrompts=1" ∷ "-o"
        ∷ "StrictHostKeyChecking=yes" ∷ "-o" ∷ "SendEnv=-LATTE_WORK_SSH_*" ∷ [])

abbrev pub discover : String
discover =
    "if [ -x \"$HOME/.local/bin/latte-work-server\" ]; then\n  exec \"$HOME/.local/bin/latte-work-server\" connect\nfi\ncandidate=$(command -v latte-work-server 2>/dev/null || true)\nif [ -n \"$candidate\" ] && [ -x \"$candidate\" ]; then\n  exec \"$candidate\" connect\nfi\nprintf '%s\\n' '{\"kind\":\"error\",\"code\":\"server_not_found\",\"message\":\"远程未找到 latte-work-server；请先安装或填写绝对路径\"}'"

unfoldable pub remote_command : String → String
unfolding shell_quote
remote_command binary =
    if is_empty binary
    then concat "exec /bin/sh -c " (shell_quote discover)
    else concat "exec " (concat (shell_quote binary) " connect")

abbrev pub last_args : String → String → List String
last_args host binary =
    "-o"
    ∷ "ConnectTimeout=10"
    ∷ "-o"
    ∷ "ServerAliveInterval=15"
    ∷ "-o"
    ∷ "ServerAliveCountMax=3"
    ∷ "--"
    ∷ host
    ∷ remote_command binary
    ∷ []

-- The arguments of the command. The variables of its environment are left out.
unfoldable pub ssh_command :
    String → String → Option ℕ → SshAuthentication → Result ShellError (List String)
unfolding validate_host is_invalid_server
ssh_command host binary port auth = do
  validate_host host
  bail_if (is_invalid_server binary) relative_server
  with_port ← port_args port
  with_auth ← auth_args auth
  ok ("-T" ∷ with_port ++ with_auth ++ last_args host binary)
