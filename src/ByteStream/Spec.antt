-- ===== src/ByteStream/Spec.antt =====
-- What byte_stream.hh promises: a bounded queue of bytes, its two counters and its two flags.
use cpp_tcp.Common.{ℕ, ◌-◌, Bool, true, List, ◌++◌, if◌then◌else◌, min, add64, length, take, drop}

pub record Pipe : Type 0 where
  pub held : List ℕ
  pub limit : ℕ
  pub popped : ℕ
  pub accepted : ℕ
  pub ended : Bool
  pub broken : Bool

-- Room for more bytes.
abbrev pub room : Pipe → ℕ
room p = p.limit - length p.held

-- As many bytes as fit are accepted, none after the end, and their number is returned.
unfoldable pub write : Pipe → List ℕ → Pipe × ℕ
write p bytes =
    let n = min (length bytes) (room p) in
    if p.ended
    then (p, 0)
    else (record p { held = p.held ++ take (room p) bytes; accepted = add64 p.accepted n }, n)

unfoldable pub peek : Pipe → ℕ → List ℕ
peek p len = take len p.held

unfoldable pub pop : Pipe → ℕ → Pipe
pop p len = record p { held = drop len p.held; popped = add64 p.popped (min len (length p.held)) }

unfoldable pub end_input : Pipe → Pipe
end_input p = record p { ended = true }

unfoldable pub set_error : Pipe → Pipe
set_error p = record p { broken = true }
