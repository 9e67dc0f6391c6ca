-- ===== src/Examples/Startup.antt =====
-- The start of a server at concrete inputs.
use mpc_server.Common.{
  Bool, false, Text, ◌++◌, ◌≢◌, arith, err, lookup, ◌≡◌, ◌⊎◌, refl, true, [], ◌∷◌, none, some, ok,
  bytes,
}
use mpc_server.Externals.{the_sled, the_crypto}
use mpc_server.Coordinator.State.{new}
use mpc_server.Startup.Keystore.{
  Files, get_secret_key, check_mode, trim, white_start, white_end, skip_white, reverse_onto,
}
use mpc_server.Proto.{KeygenRequest}
use mpc_server.Server.{keygen, internal}
use mpc_server.Transport.Clients.{join_computation_via_messenger, subscribe_messenger}
use mpc_server.Startup.{
  Bound, run_main, metrics_server_error, main, Running, spawned, use_messenger, joined, Outside,
  Cli, ended, forwards, bootstrap, precheck,
}
use mpc_server.Startup.Addresses.{Ipv4Addr, Ipv6, Ipv6Laws, IpAddr, v4, v6}
use mpc_server.Startup.Serving.{run_main-cases}
use mpc_server.Startup.Runs.{IsJoined, IsRefused, main_lem}
use mpc_server.Examples.Instances.{libraries, wire_serde}
use mpc_server.Examples.Network.{list_surf, list_redis}
use mpc_server.Examples.Inputs.{alice}

-- A password file with a line end, which its owner may read; the key is the password.
abbrev files : Files
files = record {
  mode = λ path. some 33024;
  read_to_string = λ path. some (bytes "02alice000\n");
  decrypt_key = λ path password. some password;
}

unlocked : get_secret_key files (bytes "key" ∷ []) (bytes "password" ∷ []) ≡ ok (alice, alice)
unfolding get_secret_key check_mode trim white_start white_end skip_white reverse_onto
unlocked = refl

-- Addresses of version 6, by a group and the rest of their text.
abbrev hex_ipv6 : Ipv6
hex_ipv6 = record {
  Addr = Text;
  show = λ rest. bytes "fe80" ++ (58 ∷ rest);
  parse_in_brackets = λ text. none;
}

hex_ipv6_laws : Ipv6Laws ⦃six = hex_ipv6⦄
hex_ipv6_laws = record {
  first_group = λ rest. (bytes "fe80", rest, (refl, (refl, (refl, (refl, tt)))), refl);
}

abbrev loopback : IpAddr ⦃six = hex_ipv6⦄
loopback = v4 (record { a = 127; b = 0; c = 0; d = 1 })

instance abbrev outside : Outside
outside = record {
  surf = list_surf;
  redis = list_redis;
  broker = [];
  channel = [];
  join_healthcheck = λ url. some url;
  answers = λ url. true;
  connects = λ client. true;
  open_db = λ path. some [];
  files = files;
  ipv6 = hex_ipv6;
  binds = λ address port. true;
}

abbrev args : Cli
args = record {
  messenger_address = some (bytes "http://localhost/");
  redis_url = none;
  address = loopback;
  port = 8080;
  keystore_path = bytes "key" ∷ [];
  password_path = bytes "password" ∷ [];
  db_path = bytes "db" ∷ [];
}

abbrev running : Running
running = spawned [] (some (forwards (new alice [] 0)))

abbrev request : KeygenRequest
request = record { request_id = bytes "r"; participant_public_keys = alice ∷ []; threshold = 0 }

was_started : main args 0 ≡ some running
unfolding main precheck bootstrap use_messenger join_computation_via_messenger subscribe_messenger
    joined get_secret_key check_mode trim white_start white_end skip_white reverse_onto
was_started = refl

main_lem_example :
    (IsJoined args alice
      × (running.task ≡ some (forwards (new alice [] 0)))
      × (running.api.tx.is_open ≡ true))
    ⊎ (IsRefused args alice
        × (running.task ≡ some ended)
        × ((keygen request running.api).0 ≡ err internal))
unfolding lookup
main_lem_example = main_lem args alice alice [] 0 running request was_started unlocked refl refl

-- The API ends well and the metrics do not.
abbrev ends : Bound → Bool × Bool
ends bound = (false, true)

run_main-cases_example :
    ((ip : Ipv4Addr) × (args.address ≡ v4 ip)
      × (run_main args 0 ends ≡ some (err metrics_server_error))
      × (args.port ≢ 8180))
    ⊎ ((ip : Text) × (args.address ≡ v6 ip) × (run_main args 0 ends ≡ none))
run_main-cases_example =
    run_main-cases hex_ipv6_laws args 0 ends running
      (omega arith, omega arith, omega arith, omega arith) (omega arith) refl was_started
