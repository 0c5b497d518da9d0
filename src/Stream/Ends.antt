-- ===== src/Stream/Ends.antt =====
-- The loop of `sendAll` ends over a socket that asks for few retries in a row.
use edgevision_rv1126b.Prelude.{
  ℕ, zero, suc, ◌+◌, ◌-◌, ◌*◌, ◌≤◌, ◌<◌, ◌≡◌, ◌≢◌, refl, sym, ap, ◌∙◌, true, false, List, none,
  arith, length, take, drop, false≢true, lt→ltb, le→ltb, dec_lt,
}
use edgevision_rv1126b.Socket.{
  called, more_sent, Socket, Link, SendResult, sent, interrupted, would_block, failed, is_retry,
  IsPatient,
}
use edgevision_rv1126b.Stream.{send_from}

mul_room : (s n r : ℕ) → 0 < n → n ≤ s → (s - n) * (r + 1) + (r + 1) ≤ s * (r + 1)
mul_room s n r pos le = grind arith

mul_least : (s r : ℕ) → 0 < s → r + 1 ≤ s * (r + 1)
mul_least s r pos = grind arith

-- Enough fuel: each byte costs at most `r` retries and the call that sends it. `j` counts the
-- retries that may still come before the next other answer.
abbrev pub Enough : Socket → ℕ → ℕ → ℕ → List ℕ → ℕ → Link → Type 0
Enough socket r fuel j bytes total link =
    (total ≤ length bytes)
    × (0 < fuel)
    × (j + (length bytes - total) * (r + 1) + 1 ≤ fuel + r)
    × (total < length bytes
        → is_retry (socket.send (link.calls + j) (length bytes - total)) ≡ false)

module _ (socket : Socket) (r : ℕ) (patient : IsPatient r socket) where
  pub fresh_wait : List ℕ → ℕ → Link → ℕ
  fresh_wait bytes total link = patient.wait link.calls (length bytes - total)

  pub fresh-Enough :
      (fuel : ℕ) (bytes : List ℕ) (total : ℕ) (link : Link)
      → total ≤ length bytes
      → (length bytes - total) * (r + 1) < fuel
      → Enough socket r fuel (fresh_wait bytes total link) bytes total link
  unfolding fresh_wait
  fresh-Enough fuel bytes total link le enough = (
    le,
    omega arith,
    omega (arith, patient.wait_le link.calls (length bytes - total)),
    λ lt. patient.wait_ends link.calls (length bytes - total),
  )

  sent-Enough :
      (fuel j : ℕ) (bytes : List ℕ) (total n : ℕ) (link next : Link)
      → total < length bytes
      → socket.send link.calls (length bytes - total) ≡ sent n
      → Enough socket r (suc fuel) j bytes total link
      → Enough socket r fuel (fresh_wait bytes (total + n) next) bytes (total + n) next
  sent-Enough fuel j bytes total n link next lt e h =
      fresh-Enough fuel bytes (total + n) next (omega (arith, socket.sent_le _ _ n e)) (
        omega (
          arith,
          h.2,
          mul_room (length bytes - total) n r (socket.sent_pos _ _ n e) (socket.sent_le _ _ n e),
          ap (λ s. s * (r + 1)) regroup,
        ))
    where
      regroup : length bytes - (total + n) ≡ length bytes - total - n
      regroup = omega arith

  retry-Enough :
      (fuel j : ℕ) (bytes : List ℕ) (total : ℕ) (link next : Link) (a : SendResult)
      → total < length bytes
      → next.calls ≡ link.calls + 1
      → socket.send link.calls (length bytes - total) ≡ a
      → is_retry a ≡ true
      → Enough socket r (suc fuel) j bytes total link
      → (j' : ℕ) × Enough socket r fuel j' bytes total next
  retry-Enough fuel zero bytes total link next a lt c e t h = absurd (false≢true ended)
    where
      same_call : link.calls + 0 ≡ link.calls
      same_call = omega arith

      ended : false ≡ true
      ended =
          sym (h.3 lt)
          ∙ ap (λ k. is_retry (socket.send k (length bytes - total))) same_call
          ∙ ap is_retry e
          ∙ t
  retry-Enough fuel (suc j) bytes total link next a lt c e t h = (
    j,
    (
      h.0,
      omega (arith, h.2, mul_least (length bytes - total) r (omega arith)),
      omega (arith, h.2),
      λ lt'. ap (λ k. is_retry (socket.send k (length bytes - total))) same_call ∙ h.3 lt',
    ),
  )
    where
      same_call : next.calls + j ≡ link.calls + suc j
      same_call = omega (arith, c)

  round-ne-none :
      (fuel j : ℕ) (bytes : List ℕ) (total : ℕ) (link : Link) (a : SendResult)
      → total < length bytes
      → socket.send link.calls (length bytes - total) ≡ a
      → Enough socket r (suc fuel) j bytes total link
      → ((j' total' : ℕ) (link' : Link)
          → Enough socket r fuel j' bytes total' link'
          → send_from socket fuel bytes total' link' ≢ none)
      → send_from socket (suc fuel) bytes total link ≢ none
  unfolding send_from
  round-ne-none fuel j bytes total link (sent n) lt e h rest =
      rw (lt→ltb _ _ lt, e, send_from)
        (rest _ (total + n) _ (
          sent-Enough fuel j bytes total n link (more_sent link (take n (drop total bytes))) lt e
            h))
  round-ne-none fuel j bytes total link interrupted lt e h rest =
      let (j', h') =
        retry-Enough fuel j bytes total link (called link) interrupted lt refl e refl h in
      rw (lt→ltb _ _ lt, e, send_from) (rest j' total _ h')
  round-ne-none fuel j bytes total link would_block lt e h rest =
      let (j', h') =
        retry-Enough fuel j bytes total link (called link) would_block lt refl e refl h in
      rw (lt→ltb _ _ lt, e, send_from) (rest j' total _ h')
  round-ne-none fuel j bytes total link failed lt e h rest =
      rw (lt→ltb _ _ lt, e, send_from) (λ p. cc)

  pub send_from-ne-none :
      (fuel j : ℕ) (bytes : List ℕ) (total : ℕ) (link : Link)
      → Enough socket r fuel j bytes total link
      → send_from socket fuel bytes total link ≢ none
  unfolding send_from
  send_from-ne-none zero j bytes total link h = absurd (omega (arith, h.1))
  send_from-ne-none (suc fuel) j bytes total link h = elim (dec_lt total (length bytes)) [
    | no ge ↦ rw (le→ltb total (length bytes) (omega arith), send_from) (λ p. cc)
    | yes lt ↦
        round-ne-none fuel j bytes total link _ lt refl h
          (λ j' t l h'. send_from-ne-none fuel j' bytes t l h')
  ]
