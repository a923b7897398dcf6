-- ===== src/Client/Ssh.antt =====
-- What an accepted `ssh_command` runs (crates/latte-work-client/src/lib.rs).
use latte_work.Common.{
  String, false, List, [], ◌∷◌, ◌++◌, Option, some, ℕ, ◌≡◌, sym, ◌∙◌, ok, bail_if, bail_if-ok,
  >>=-eq-ok, ok-injective, append_assoc,
}
use latte_work.Client.Shell.{
  remote_command, ssh_command, validate_host, is_invalid_host, is_invalid_server, SshAuthentication,
  port_args, auth_args, invalid_host, relative_server,
}
use latte_work.Client.Words.{between, scan}
use latte_work.Client.Commands.{remote_words, remote_command-words}

-- The arguments of an `ssh_command` that is accepted are options, `--`, the host and one command: the
-- host passed `validate_host`, so that it starts with no dash and holds nothing but ASCII letters,
-- digits and `._-@:`, and the remote shell splits the command into `exec`, the path of the server as
-- it was given and `connect`, or `exec`, `/bin/sh`, `-c` and the script that looks for the server
-- when no path was given.
pub ssh_command-words :
    (host binary : String) (port : Option ℕ) (auth : SshAuthentication) (args : List String)
    → ssh_command host binary port auth ≡ ok args
    → (options : List String) × (command : String) × (args ≡ options ++ "--" ∷ host ∷ command ∷ [])
      × (is_invalid_host host ≡ false)
      × (scan between command ≡ some (remote_words binary))
unfolding ssh_command validate_host
ssh_command-words host binary port auth args done =
    let (_, valid, rest) = >>=-eq-ok (bail_if (is_invalid_host host) invalid_host) _ done in
    let (_, absolute, rest') =
      >>=-eq-ok (bail_if (is_invalid_server binary) relative_server) _ rest in
    let (ports, p, rest2) = >>=-eq-ok (port_args port) _ rest' in
    let (auths, q, end) = >>=-eq-ok (auth_args auth) _ rest2 in
    let chosen = "-T" ∷ ports ++ auths in
    let fixed : List String =
      "-o" ∷ "ConnectTimeout=10" ∷ "-o" ∷ "ServerAliveInterval=15" ∷ "-o" ∷ "ServerAliveCountMax=3"
      ∷ [] in
    (
      chosen ++ fixed,
      remote_command binary,
      sym (ok-injective end)
          ∙ sym (append_assoc chosen fixed ("--" ∷ host ∷ remote_command binary ∷ [])),
      bail_if-ok (is_invalid_host host) invalid_host valid,
      remote_command-words binary,
    )
