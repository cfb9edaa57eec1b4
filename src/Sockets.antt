-- ===== src/Sockets.antt =====
-- home_exam/utils/src/common.c: whole messages over a TCP connection. `recv` and `send` are the
-- operating system's. A connection is the list of the bytes that have not been received.
use in_lib.Base.{ℕ, Option, none, some, List, if◌then◌else◌, length, [], ◌≡◌, subst, ◌++◌, arith}
use mathlib.Core.List.{append-nil}
use in_lib.Base.Int.{ℤ, pos, eq_ℤ}

-- What `recv` returns, the bytes in the buffer, and what is left on the connection.
pub record Received : Type 0 where
  pub count : ℤ
  pub bytes : List ℕ
  pub rest : List ℕ

-- `receiveNBytesMessage`. Both -1 and a smaller count are EXIT_FAILURE.
unfoldable pub receive_n_bytes_message :
    (ℕ → List ℕ → Received) → ℕ → List ℕ → Option (List ℕ × List ℕ)
receive_n_bytes_message recv n_bytes connection =
    let r = recv n_bytes connection in
    if eq_ℤ r.count (pos n_bytes) then some (r.bytes, r.rest) else none

-- `sendMessage`: the bytes that are on the connection after a success.
unfoldable pub send_message : (List ℕ → ℤ) → List ℕ → Option (List ℕ)
send_message send bytes = if eq_ℤ (send bytes) (pos (length bytes)) then some bytes else none

-- With MSG_WAITALL, `recv` blocks until all of the bytes that are asked for are there.
abbrev pub WaitsForAll : (ℕ → List ℕ → Received) → Type 0
WaitsForAll recv =
    (bytes rest : List ℕ)
    → recv (length bytes) (bytes ++ rest)
      ≡ record { count = pos (length bytes); bytes = bytes; rest = rest }

-- `send` blocks until there is room for all of the bytes, and takes them.
abbrev pub SendsAll : (List ℕ → ℤ) → Type 0
SendsAll send = (bytes : List ℕ) → send bytes ≡ pos (length bytes)

pub receive_n_bytes_message-append :
    (recv : ℕ → List ℕ → Received) (n_bytes : ℕ) (bytes rest : List ℕ)
    → WaitsForAll recv
    → n_bytes ≡ length bytes
    → receive_n_bytes_message recv n_bytes (bytes ++ rest) ≡ some (bytes, rest)
unfolding receive_n_bytes_message
receive_n_bytes_message-append recv n_bytes bytes rest waits size =
    rw (size, waits bytes rest) (ground arith)

pub receive_n_bytes_message-all :
    (recv : ℕ → List ℕ → Received) (n_bytes : ℕ) (bytes : List ℕ)
    → WaitsForAll recv
    → n_bytes ≡ length bytes
    → receive_n_bytes_message recv n_bytes bytes ≡ some (bytes, [])
receive_n_bytes_message-all recv n_bytes bytes waits size =
    subst (λ bs. receive_n_bytes_message recv n_bytes bs ≡ some (bytes, [])) (append-nil bytes)
      (receive_n_bytes_message-append recv n_bytes bytes [] waits size)

pub send_message-all :
    (send : List ℕ → ℤ) (bytes : List ℕ) → SendsAll send → send_message send bytes ≡ some bytes
unfolding send_message
send_message-all send bytes sends = rw (sends bytes) (ground arith)
