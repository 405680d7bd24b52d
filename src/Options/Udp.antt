-- ===== src/Options/Udp.antt =====
-- `get_config` of apps/tcp_udp.cc.
use cpp_tcp.Common.{ℕ, ◌-◌, ltb, List, [], ◌∷◌, if◌then◌else◌, length}
use cpp_tcp.Adapter.{Address}
use cpp_tcp.Options.{
  Run, returned, exits, calls, ◌>>=◌, Settings, CLibrary, strncmp_eq, argument, with_argument,
  listening, set_window, set_timeout, set_loss_up, set_loss_down, scan, initial,
}

-- The body of the loop.
unfoldable pub read_option : CLibrary → List (List ℕ) → Settings → Run Settings
read_option lib argv s = argument argv s.curr >>= λ arg.
    if strncmp_eq 3 (b'-' ∷ b'l' ∷ []) arg
    then returned (listening s)
    else if strncmp_eq 3 (b'-' ∷ b'w' ∷ []) arg
    then with_argument argv s (set_window lib s)
    else if strncmp_eq 3 (b'-' ∷ b't' ∷ []) arg
    then with_argument argv s (set_timeout lib s)
    else if strncmp_eq 3 (b'-' ∷ b'L' ∷ b'u' ∷ []) arg
    then with_argument argv s (set_loss_up lib s)
    else if strncmp_eq 3 (b'-' ∷ b'L' ∷ b'd' ∷ []) arg
    then with_argument argv s (set_loss_down lib s)
    else if strncmp_eq 3 (b'-' ∷ b'h' ∷ []) arg
    then exits 0
    else exits 1

-- The part after the loop; the indices are counted from the end.
unfoldable pub read_addresses : CLibrary → List (List ℕ) → Settings → Run Settings
read_addresses lib argv s =
    let server : Run Settings =
      (argument argv (length argv - 1) >>= λ port.
      calls (lib.resolve (b'0' ∷ []) port) >>= λ source.
      returned (record s { filt = record s.filt { source = source } })) in
    let client : Run Settings =
      (argument argv (length argv - 2) >>= λ host. argument argv (length argv - 1) >>= λ port.
      calls (lib.resolve host port) >>= λ destination.
      returned (record s { filt = record s.filt { destination = destination } })) in
    if s.listen then server else client

unfoldable pub get_config : CLibrary → Address → List (List ℕ) → Run Settings
get_config lib any argv =
    scan (read_option lib argv) argv (length argv) (initial any [] []) >>= read_addresses lib argv

-- `main` up to the construction of the socket.
unfoldable pub configure : CLibrary → Address → List (List ℕ) → Run Settings
configure lib any argv =
    let config = get_config lib any argv in if ltb (length argv) 3 then exits 1 else config
