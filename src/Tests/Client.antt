-- ===== src/Tests/Client.antt =====
-- The client at concrete inputs.
use latte_work.Common.{
  String, ◌≡◌, refl, true, false, List, [], ◌∷◌, ◌++◌, some, ok, err, is_empty, any_char, decimal,
}
use latte_work.Protocol.Requests
use latte_work.Client.Shell.{
  shell_quote, quoted_body, ssh_command, validate_host, is_invalid_host, is_invalid_server,
  open_ssh, last_args, invalid_host,
}
use latte_work.Client.Words.{between, scan}
use latte_work.Client.Commands.{remote_words}
use latte_work.Client.Ssh.{ssh_command-words}
use latte_work.Client.Transport.{Client, of_request, exchange, timed_out, answered, Outcome}
use latte_work.Client.Silence.{Call, requested, after_calls, exchange-silent}
use latte_work.Protocol.Responses

quoted_text : shell_quote "/it's" ≡ "'/it'\\''s'"
unfolding shell_quote quoted_body
quoted_text = refl

option_host : validate_host "-oProxyCommand=x" ≡ err invalid_host
unfolding validate_host is_invalid_host is_empty
option_host = refl

abbrev sample_args : List String
sample_args = "-T" ∷ "-p" ∷ "22" ∷ "-o" ∷ "BatchMode=yes" ∷ last_args "me@host" "/opt/a b"

accepted : ssh_command "me@host" "/opt/a b" (some 22) open_ssh ≡ ok sample_args
unfolding ssh_command validate_host is_invalid_host is_invalid_server is_empty any_char decimal
accepted = refl

ssh_command-words_example :
    (options : List String) × (command : String) × (sample_args
      ≡ options ++ "--" ∷ "me@host" ∷ command ∷ [])
    × (is_invalid_host "me@host" ≡ false)
    × (scan between command ≡ some (remote_words "/opt/a b"))
ssh_command-words_example =
    ssh_command-words "me@host" "/opt/a b" (some 22) open_ssh sample_args accepted

abbrev connected : Client
connected = record {
  broken = false;
  killed = false;
  permission_settings = true;
  server_id = "srv";
  sent = [];
}

abbrev late_answer : Outcome Responses.Response
late_answer = timed_out

abbrev poll : Requests.Request
poll = Requests.poll "s" 0

abbrev later : List Call
later = requested poll 40 (answered Responses.ok) ∷ []

exchange-silent_example :
    after_calls (exchange connected (of_request poll) 40 late_answer).0 later
    ≡ (exchange connected (of_request poll) 40 late_answer).0
exchange-silent_example = exchange-silent connected (of_request poll) 40 late_answer later refl
