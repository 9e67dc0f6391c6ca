-- ===== src/Startup/Serving.antt =====
-- Where the two servers of a server are bound to.
use mpc_server.Common.{
  ℕ, Bool, not, false, Option, if◌then◌else◌, ap, ◌∙◌, ◌+◌, ◌%◌, ◌≡◌, ◌≢◌, ◌≤◌, ◌⊎◌, inl, inr, refl,
  true, none, some, arith, ok, err, Option-cases, sym, subst,
}
use mpc_server.Common.Decimal.{malformed}
use mpc_server.Externals.{Externals}
use mpc_server.External.Serde.{Serde}
use mpc_server.Proto.{WireMessage}
use mpc_server.Startup.Addresses.{Ipv4Addr, Ipv6Laws, IpAddr, v4, v6, IsAddress, api_address}
use mpc_server.Startup.Addresses.Parsed.{api_address_v4, api_address_v6}
use mpc_server.Startup.{
  Outside, Cli, Bound, Running, serving, metrics_server, api_server, run_main, joined_servers, main,
  combined, mpc_server_error, metrics_server_error,
}

combined_lem :
    (metrics api : Bool)
    → combined metrics api ≡ (
        if not api
        then err mpc_server_error
        else if not metrics
        then err metrics_server_error
        else ok tt)
unfolding combined
combined_lem true true = refl
combined_lem true false = refl
combined_lem false true = refl
combined_lem false false = refl

module _ ⦃x : Externals⦄ ⦃o : Outside⦄ ⦃wire : Serde WireMessage⦄ where
  abbrev metrics_port : ℕ → ℕ
  metrics_port port = (port + 100) % 65536

  apart : (port : ℕ) → port ≤ 65535 → port ≢ metrics_port port
  apart port fits = omega arith

  bound :
      (args : Cli)
      → o.binds args.address (metrics_port args.port) ≡ true
      → api_address ⦃six = o.ipv6⦄ args.address args.port ≡ ok (args.address, args.port)
      → serving args
        ≡ some (record {
          metrics = (args.address, metrics_port args.port);
          api = (args.address, args.port);
        })
  unfolding serving
  bound args binds parsed = rw (binds, parsed, serving) refl

  unbound :
      (args : Cli)
      → api_address ⦃six = o.ipv6⦄ args.address args.port ≡ err malformed
      → serving args ≡ none
  unfolding serving
  unbound args failed =
      let gone : api_server args ≡ none = rw (failed, api_server) refl in
      elim (Option-cases (metrics_server args)) [
        | inl e ↦ rw (e, serving) refl
        | inr (metrics, e) ↦ rw (e, gone, serving) refl
      ]

  IpAddr-cases :
      (address : IpAddr ⦃six = o.ipv6⦄)
      → ((ip : Ipv4Addr) × (address ≡ v4 ip)) ⊎ ((ip : o.ipv6.Addr) × (address ≡ v6 ip))
  IpAddr-cases (v4 ip) = inl (ip, refl)
  IpAddr-cases (v6 ip) = inr (ip, refl)

  run_main_lem :
      (args : Cli) (now : ℕ) (ends : Bound → Bool × Bool) (r : Running) (bound : Option Bound)
      → main args now ≡ some r
      → serving args ≡ bound
      → run_main args now ends ≡ joined_servers bound ends
  unfolding run_main
  run_main_lem args now ends r bound set_up served = rw (set_up, served, run_main) refl

  -- The addresses of the servers of a server.
  abbrev pub bound_to : Cli → Bound
  bound_to args = record {
    metrics = (args.address, (args.port + 100) % 65536);
    api = (args.address, args.port);
  }

  -- A server has come to run its two servers, and its metrics can be bound to the port 100 above its
  -- own, counted round at 65536. With an address of version 4 the API is bound to its address and
  -- port and the metrics to another port of the same address, and the server ends with an error of
  -- the API if that fails, else with one of the metrics if they fail, and else well. With an address
  -- of version 6 it panics.
  pub run_main-cases :
      Ipv6Laws ⦃six = o.ipv6⦄
      → (args : Cli) (now : ℕ) (ends : Bound → Bool × Bool) (r : Running)
      → IsAddress ⦃six = o.ipv6⦄ args.address
      → args.port ≤ 65535
      → o.binds args.address ((args.port + 100) % 65536) ≡ true
      → main args now ≡ some r
      → ((ip : Ipv4Addr) × (args.address ≡ v4 ip)
          × (run_main args now ends
              ≡ some (
                  if not (ends (bound_to args)).1
                  then err mpc_server_error
                  else if not (ends (bound_to args)).0
                  then err metrics_server_error
                  else ok tt))
          × (args.port ≢ (args.port + 100) % 65536))
        ⊎ ((ip : o.ipv6.Addr) × (args.address ≡ v6 ip) × (run_main args now ends ≡ none))
  run_main-cases laws args now ends r valid fits binds set_up = elim (IpAddr-cases args.address) [
    | inl (ip, e) ↦ inl (
      ip,
      e,
      run_main_lem args now ends r (some (bound_to args)) set_up (
            bound args binds (
              subst
                (λ (a : IpAddr ⦃six = o.ipv6⦄).
                  IsAddress ⦃six = o.ipv6⦄ a
                  → api_address ⦃six = o.ipv6⦄ a args.port ≡ ok (a, args.port))
                (sym e) (λ small. api_address_v4 ⦃six = o.ipv6⦄ ip args.port small fits) valid))
          ∙ ap some (combined_lem (ends (bound_to args)).0 (ends (bound_to args)).1),
      apart args.port fits,
    )
    | inr (ip, e) ↦ inr (
      ip,
      e,
      run_main_lem args now ends r none set_up
          (unbound args (rw e (api_address_v6 ⦃six = o.ipv6⦄ laws ip args.port))),
    )
  ]
