-- ===== src/Message/Framing.antt =====
-- Messages are read back as they were written (StateDatabase/net_message.h).
use state_db.Base.{ℕ, ◌+◌, ◌*◌, ◌/◌, ◌%◌, ◌^◌, ◌<◌, ◌≡◌, some, List, ◌++◌, arith}
use state_db.Message.{Preamble, read_preamble, write_preamble}

bytes_of_size :
    (n : ℕ)
    → n < 2 ^ 32
    → n % 256 + 256 * (n / 256 % 256 + 256 * (n / 65536 % 256 + 256 * (n / 16777216 % 256))) ≡ n
bytes_of_size n h = omega arith

-- A preamble whose fields fit their types is read back from the bytes that are written for it,
-- whatever follows them.
pub read_preamble-write_preamble :
    (m : Preamble) (rest : List ℕ)
    → m.id < 2 ^ 16
    → m.size < 2 ^ 32
    → read_preamble (write_preamble m ++ rest) ≡ some (m, rest)
unfolding read_preamble write_preamble
read_preamble-write_preamble m rest h k = ground (arith, bytes_of_size m.size k)
