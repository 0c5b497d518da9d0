-- ===== src/Socket.antt =====
-- The operating system's side of a connected stream socket, which the program calls and does not
-- define: what each call of `send` returns, by the number of the call and the size asked for.
pub mod Samples
use edgevision_rv1126b.Prelude.{◌++◌, ℕ, ◌+◌, ◌≤◌, ◌<◌, ◌≡◌, List, Bool, true, false}

pub data SendResult : Type 0 where
  -- `send` returned this positive count.
  sent : ℕ → SendResult
  -- -1 with EINTR.
  interrupted : SendResult
  -- -1 with EAGAIN or EWOULDBLOCK.
  would_block : SendResult
  -- Zero, or -1 with any other error.
  failed : SendResult

pub record Socket : Type 0 where
  pub send : ℕ → ℕ → SendResult
  -- The documented contract: a positive count is at most the size.
  pub sent_pos : (call size n : ℕ) → send call size ≡ sent n → 0 < n
  pub sent_le : (call size n : ℕ) → send call size ≡ sent n → n ≤ size

-- The calls made so far, and the bytes that the system took over, in order.
pub record Link : Type 0 where
  pub calls : ℕ
  pub wire : List ℕ

abbrev pub is_retry : SendResult → Bool
is_retry (sent n) = false
is_retry interrupted = true
is_retry would_block = true
is_retry failed = false

-- Among any `r + 1` calls in a row with one size, one does not ask for a retry.
pub record IsPatient (r : ℕ) (socket : Socket) : Type 0 where
  pub wait : ℕ → ℕ → ℕ
  pub wait_le : (call size : ℕ) → wait call size ≤ r
  pub wait_ends : (call size : ℕ) → is_retry (socket.send (call + wait call size) size) ≡ false

-- The link after one more call of `send`, without and with bytes taken over.
abbrev pub called : Link → Link
called link = record link { calls = link.calls + 1 }

abbrev pub more_sent : Link → List ℕ → Link
more_sent link bytes = record link { calls = link.calls + 1; wire = link.wire ++ bytes }
