-- ===== src/Options/Positional.antt =====
-- What the command lines of both programs come to.
use cpp_tcp.Common.{
  ℕ, ◌+◌, ◌-◌, ◌≤◌, ◌<◌, ◌≡◌, refl, arith, Bool, true, false, List, [], ◌∷◌, some, Safely, Result,
  ok, err, Error, length, get_elem?, get_or, get_elem?-eq-get_or, ltb, if-both,
}
use cpp_tcp.Adapter.{Address}
use cpp_tcp.Options.{
  exits, calls, Settings, CLibrary, argument, scan, set_window, set_timeout, set_loss_up,
  set_loss_down, initial,
}
use cpp_tcp.Options.Ipv4
use cpp_tcp.Options.Udp
use cpp_tcp.Options.Scanning.{
  Ends, Ends-bind, argument_lem, argument-some, MovesOn, with_argument-MovesOn, scan-TwoLeft,
}

-- The resolver returns an address or throws; it reads nothing that it does not have.
abbrev pub Resolves : CLibrary → Type 0
Resolves lib = (host service : List ℕ) → Safely (λ _. Unit {0}) (lib.resolve host service)

-- The exception is one that the resolver has thrown for some host and service, and no access that C++
-- leaves undefined.
abbrev pub Unresolved : CLibrary → Error → Type 0
Unresolved lib e =
    (host : List ℕ) × (service : List ℕ) × (lib.resolve host service ≡ err e)
    × Safely (λ (x : Unit {0}). ⊥) (err e)

calls_lem :
    (lib : CLibrary) (host service : List ℕ)
    → Resolves lib
    → Ends
        (Unresolved lib)
        (λ a. lib.resolve host service ≡ ok a)
        (calls (lib.resolve host service))
calls_lem lib host service resolves = go (lib.resolve host service) refl (resolves host service)
  where
    go :
        (r : Result Address)
        → lib.resolve host service ≡ r
        → Safely (λ _. Unit {0}) r
        → Ends (Unresolved lib) (λ a. lib.resolve host service ≡ ok a) (calls r)
    go (ok a) same h = same
    go (err Error.undefined) same h = (host, service, same, h)
    go (err Error.out_of_fuel) same h = (host, service, same, h)
    go (err Error.runtime_error) same h = (host, service, same, tt)
    go (err Error.out_of_range) same h = (host, service, same, tt)
    go (err Error.bad_optional_access) same h = (host, service, same, tt)

udp_round :
    (lib : CLibrary) (argv : List (List ℕ)) (s : Settings)
    → s.curr + 2 < length argv
    → Ends (Unresolved lib) (MovesOn argv s) (Udp.read_option lib argv s)
unfolding Udp.read_option
udp_round lib argv s more =
    Ends-bind (Unresolved lib) (λ v. get_elem? argv s.curr ≡ some v) (MovesOn argv s)
      (argument argv s.curr) _ (argument_lem (Unresolved lib) argv s.curr (omega (arith, more)))
      λ arg at. ground (
        arith,
        with_argument-MovesOn (Unresolved lib) argv s (set_window lib s),
        with_argument-MovesOn (Unresolved lib) argv s (set_timeout lib s),
        with_argument-MovesOn (Unresolved lib) argv s (set_loss_up lib s),
        with_argument-MovesOn (Unresolved lib) argv s (set_loss_down lib s),
      )

-- The last two arguments are the host and the port: a server resolves the port, which is not 0, and
-- a client both.
abbrev pub Positional : (Settings → Bool) → CLibrary → List (List ℕ) → Settings → Type 0
Positional port_checked lib argv s =
    (host : List ℕ) × (service : List ℕ) × (get_elem? argv (length argv - 2) ≡ some host)
    × (get_elem? argv (length argv - 1) ≡ some service)
    × (s.listen ≡ true
        → (lib.resolve (b'0' ∷ []) service ≡ ok s.filt.source) × (port_checked s ≡ true))
    × (s.listen ≡ false → lib.resolve host service ≡ ok s.filt.destination)

abbrev pub port_set : Settings → Bool
port_set s = ltb 0 s.filt.source.port

-- The two arguments that the loop leaves.
record AtEnd (argv : List (List ℕ)) (host service : List ℕ) : Type 0 where
  first : get_elem? argv (length argv - 2) ≡ some host
  second : get_elem? argv (length argv - 1) ≡ some service

at_end :
    (argv : List (List ℕ))
    → 2 ≤ length argv
    → (host : List ℕ) × (service : List ℕ) × AtEnd argv host service
at_end argv two = (
  get_or argv (length argv - 2) [],
  get_or argv (length argv - 1) [],
  record {
    first = get_elem?-eq-get_or argv (length argv - 2) [] (omega (arith, two));
    second = get_elem?-eq-get_or argv (length argv - 1) [] (omega (arith, two));
  },
)

module _ (lib : CLibrary) (resolves : Resolves lib) (argv : List (List ℕ)) (host service : List ℕ)
    (e : AtEnd argv host service) (s : Settings) where
  udp_addresses :
      Ends (Unresolved lib) (Positional (λ _. true) lib argv) (Udp.read_addresses lib argv s)
  unfolding Udp.read_addresses
  udp_addresses =
      rw
        (
          argument-some argv (length argv - 2) host e.first,
          argument-some argv (length argv - 1) service e.second,
        )
        (if-both (Ends (Unresolved lib) (Positional (λ _. true) lib argv)) s.listen _ _
          (λ server.
            Ends-bind (Unresolved lib) (λ a. lib.resolve (b'0' ∷ []) service ≡ ok a)
              (Positional (λ _. true) lib argv) (calls (lib.resolve (b'0' ∷ []) service)) _
              (calls_lem lib (b'0' ∷ []) service resolves)
              λ source found. (
                host,
                service,
                e.first,
                e.second,
                λ _. (found, refl),
                λ client. cc (server, client),
              ))
          (λ client.
            Ends-bind (Unresolved lib) (λ a. lib.resolve host service ≡ ok a)
              (Positional (λ _. true) lib argv) (calls (lib.resolve host service)) _
              (calls_lem lib host service resolves)
              λ destination found.
                (host, service, e.first, e.second, λ server. cc (server, client), λ _. found)))

-- The command line of tcp_udp: as for tcp_ipv4, but the port of a server is not tested.
pub udp_configures :
    (lib : CLibrary) (any : Address) (argv : List (List ℕ))
    → Resolves lib
    → Ends (Unresolved lib) (Positional (λ _. true) lib argv) (Udp.configure lib any argv)
unfolding Udp.configure Udp.get_config
udp_configures lib any argv resolves =
    if-both (Ends (Unresolved lib) (Positional (λ _. true) lib argv)) (ltb (length argv) 3)
      (exits 1) _ (λ _. tt)
      λ some_left.
        let (host, service, e) = at_end argv (ground (arith, some_left)) in
        Ends-bind (Unresolved lib) (λ s. s.curr + 2 ≡ length argv) (Positional (λ _. true) lib argv)
          (scan (Udp.read_option lib argv) argv (length argv) (initial any [] []))
          (Udp.read_addresses lib argv)
          (scan-TwoLeft (Unresolved lib) (Udp.read_option lib argv) argv (udp_round lib argv)
            (length argv) (initial any [] []) (omega arith) (ground (arith, some_left)))
          λ s _. udp_addresses lib resolves argv host service e s
