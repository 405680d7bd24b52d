-- ===== src/Options.antt =====
-- The command lines of apps/tcp_ipv4.cc and apps/tcp_udp.cc: what their loops over `argv` share. A
-- string of C is the list of its bytes without the terminator, and `argc` is the length of `argv`.
-- What is written to cout is left out.
pub mod Ipv4
pub mod Udp
pub mod Scanning
pub mod Positional
use cpp_tcp.Common.{
  ℕ, zero, suc, ◌+◌, Bool, true, false, ◌&&◌, ◌==◌, ltb, leb, List, [], ◌∷◌, Option, none, some,
  Result, ok, err, Error, length, get_elem?, if◌then◌else◌, to_u16,
}
use cpp_tcp.Connection.{TcpConfig}
use cpp_tcp.Adapter.{Address, FdAdapterConfig}

-- How a part of `main` ends: with a value, by a call of `exit`, or by an exception or an undefined
-- access.
pub data Run (A : Type 0) : Type 0 where
  returned : A → Run A
  exits : ℕ → Run A
  fails : Error → Run A

infixl 5 ◌>>=◌
abbrev pub ◌>>=◌ : {A B : Type 0} → Run A → (A → Run B) → Run B
returned a >>= next = next a
exits status >>= next = exits status
fails problem >>= next = fails problem

abbrev pub calls : {A : Type 0} → Result A → Run A
calls (ok a) = returned a
calls (err e) = fails e

-- `strncmp(a, b, n) == 0`
unfoldable pub strncmp_eq : ℕ → List ℕ → List ℕ → Bool
strncmp_eq zero a b = true
strncmp_eq (suc n) [] [] = true
strncmp_eq (suc n) [] (y ∷ ys) = false
strncmp_eq (suc n) (x ∷ xs) [] = false
strncmp_eq (suc n) (x ∷ xs) (y ∷ ys) = x == y && strncmp_eq n xs ys

-- `argv[i]`
unfoldable pub argument : List (List ℕ) → ℕ → Run (List ℕ)
argument argv i = elim (get_elem? argv i) [ none ↦ fails Error.undefined | some s ↦ returned s ]

-- What the loops keep in variables.
pub record Settings : Type 0 where
  pub fsm : TcpConfig
  pub filt : FdAdapterConfig
  pub listen : Bool
  pub tundev : Option (List ℕ)
  pub source_address : List ℕ
  pub source_port : List ℕ
  pub curr : ℕ

-- What the C library makes of a string: `strtol` with base 0, as the bits of a long, and the loss
-- rate that comes of `strtof`. What `getaddrinfo` makes of a host and a service, or the exception.
pub record CLibrary : Type 0 where
  pub strtol : List ℕ → ℕ
  pub loss_rate : List ℕ → ℕ
  pub resolve : List ℕ → List ℕ → Result Address

-- An option with an argument: `check_argc`, and the argument.
unfoldable pub with_argument : List (List ℕ) → Settings → (List ℕ → Settings) → Run Settings
with_argument argv s change =
    let changed =
      argument argv (s.curr + 1) >>= λ v. returned (record (change v) { curr = s.curr + 2 }) in
    if leb (length argv) (s.curr + 3) then exits 1 else changed

-- The changes that the options of both programs make. A uint16_t takes the low bits of a long.
abbrev pub listening : Settings → Settings
listening s = record s { listen = true; curr = s.curr + 1 }

abbrev pub set_window : CLibrary → Settings → List ℕ → Settings
set_window lib s v = record s { fsm = record s.fsm { recv_capacity = lib.strtol v } }

abbrev pub set_timeout : CLibrary → Settings → List ℕ → Settings
set_timeout lib s v = record s { fsm = record s.fsm { rt_timeout = to_u16 (lib.strtol v) } }

abbrev pub set_loss_up : CLibrary → Settings → List ℕ → Settings
set_loss_up lib s v = record s { filt = record s.filt { loss_rate_up = lib.loss_rate v } }

abbrev pub set_loss_down : CLibrary → Settings → List ℕ → Settings
set_loss_down lib s v = record s { filt = record s.filt { loss_rate_dn = lib.loss_rate v } }

-- The loop `while (argc - curr > 2)`, on fuel; `round` is its body.
unfoldable pub scan : (Settings → Run Settings) → List (List ℕ) → ℕ → Settings → Run Settings
scan round argv zero s = fails Error.out_of_fuel
scan round argv (suc fuel) s =
    let next = round s >>= scan round argv fuel in
    if ltb (s.curr + 2) (length argv) then next else returned s

-- `TCPConfig c_fsm{}` and the other initial values; `any` is the address "0" with port 0.
abbrev pub default_config : TcpConfig
default_config = record {
  rt_timeout = 1000;
  recv_capacity = 64000;
  send_capacity = 64000;
  fixed_isn = none;
}

abbrev pub initial : Address → List ℕ → List ℕ → Settings
initial any source_address source_port = record {
  fsm = default_config;
  filt = record { source = any; destination = any; loss_rate_dn = 0; loss_rate_up = 0 };
  listen = false;
  tundev = none;
  source_address = source_address;
  source_port = source_port;
  curr = 1;
}
