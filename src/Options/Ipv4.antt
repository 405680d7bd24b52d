-- ===== src/Options/Ipv4.antt =====
-- `get_config` of apps/tcp_ipv4.cc.
use cpp_tcp.Common.{ℕ, ◌+◌, ◌==◌, ltb, List, [], ◌∷◌, some, if◌then◌else◌, length}
use cpp_tcp.Adapter.{Address}
use cpp_tcp.Options.{
  Run, returned, exits, calls, ◌>>=◌, Settings, CLibrary, strncmp_eq, argument, with_argument,
  listening, set_window, set_timeout, set_loss_up, set_loss_down, scan, initial,
}

-- The body of the loop.
unfoldable pub read_option : CLibrary → List (List ℕ) → Settings → Run Settings
read_option lib argv s = argument argv s.curr >>= λ arg.
    if strncmp_eq 3 (b'-' ∷ b'l' ∷ []) arg
    then returned (listening s)
    else if strncmp_eq 3 (b'-' ∷ b'a' ∷ []) arg
    then with_argument argv s (λ v. record s { source_address = v })
    else if strncmp_eq 3 (b'-' ∷ b's' ∷ []) arg
    then with_argument argv s (λ v. record s { source_port = v })
    else if strncmp_eq 3 (b'-' ∷ b'w' ∷ []) arg
    then with_argument argv s (set_window lib s)
    else if strncmp_eq 3 (b'-' ∷ b't' ∷ []) arg
    then with_argument argv s (set_timeout lib s)
    else if strncmp_eq 3 (b'-' ∷ b'd' ∷ []) arg
    then with_argument argv s (λ v. record s { tundev = some v })
    else if strncmp_eq 3 (b'-' ∷ b'L' ∷ b'u' ∷ []) arg
    then with_argument argv s (set_loss_up lib s)
    else if strncmp_eq 3 (b'-' ∷ b'L' ∷ b'd' ∷ []) arg
    then with_argument argv s (set_loss_down lib s)
    else if strncmp_eq 3 (b'-' ∷ b'h' ∷ []) arg
    then exits 0
    else exits 1

-- The part after the loop.
unfoldable pub read_addresses : CLibrary → List (List ℕ) → Settings → Run Settings
read_addresses lib argv s =
    let server : Run Settings =
      (argument argv (s.curr + 1) >>= λ port. calls (lib.resolve (b'0' ∷ []) port) >>= λ source.
      if source.port == 0
      then exits 1
      else returned (record s { filt = record s.filt { source = source } })) in
    let client : Run Settings =
      (argument argv s.curr >>= λ host. argument argv (s.curr + 1) >>= λ port.
      calls (lib.resolve host port) >>= λ destination.
      calls (lib.resolve s.source_address s.source_port) >>= λ source.
      returned
        (record s { filt = record s.filt { source = source; destination = destination } })) in
    if s.listen then server else client

-- `LOCAL_ADDRESS_DFLT`
abbrev pub local_address : List ℕ
local_address =
    b'1' ∷ b'6' ∷ b'9' ∷ b'.' ∷ b'2' ∷ b'5' ∷ b'4' ∷ b'.' ∷ b'1' ∷ b'4' ∷ b'4' ∷ b'.' ∷ b'9' ∷ []

-- `port` is the random source port in digits.
unfoldable pub get_config : CLibrary → Address → List ℕ → List (List ℕ) → Run Settings
get_config lib any port argv =
    scan (read_option lib argv) argv (length argv) (initial any local_address port)
    >>= read_addresses lib argv

-- `main` up to the construction of the socket.
unfoldable pub configure : CLibrary → Address → List ℕ → List (List ℕ) → Run Settings
configure lib any port argv =
    let config = get_config lib any port argv in if ltb (length argv) 3 then exits 1 else config
