-- ===== src/Socket/Samples.antt =====
-- A concrete socket for the tests.
use edgevision_rv1126b.Prelude.{ℕ, zero, suc, ◌≤◌, ◌<◌, ◌≡◌, refl, ap, false, [], arith}
use edgevision_rv1126b.Socket.{
  Socket, Link, SendResult, sent, interrupted, would_block, failed, IsPatient, is_retry,
}

abbrev pub answer : ℕ → SendResult
answer zero = failed
answer (suc zero) = sent 1
answer (suc (suc n)) = sent 2

abbrev count : SendResult → ℕ
count (sent n) = n
count interrupted = 0
count would_block = 0
count failed = 0

pub answer-pos : (size n : ℕ) → answer size ≡ sent n → 0 < n
answer-pos zero n e = cc
answer-pos (suc zero) n e = omega (arith, ap count e)
answer-pos (suc (suc m)) n e = omega (arith, ap count e)

pub answer-le : (size n : ℕ) → answer size ≡ sent n → n ≤ size
answer-le zero n e = cc
answer-le (suc zero) n e = omega (arith, ap count e)
answer-le (suc (suc m)) n e = omega (arith, ap count e)

answer-patient : (size : ℕ) → is_retry (answer size) ≡ false
answer-patient zero = refl
answer-patient (suc zero) = refl
answer-patient (suc (suc n)) = refl

-- It takes two bytes in each call, or the one that is left.
abbrev pub two_bytes : Socket
two_bytes = record {
  send = λ call. answer;
  sent_pos = λ call. answer-pos;
  sent_le = λ call. answer-le;
}

pub two_bytes-IsPatient : IsPatient 0 two_bytes
two_bytes-IsPatient = record {
  wait = λ call size. 0;
  wait_le = λ call size. omega arith;
  wait_ends = λ call. answer-patient;
}

abbrev pub unused : Link
unused = record { calls = 0; wire = [] }
