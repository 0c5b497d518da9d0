-- ===== src/Wire.antt =====
-- The frame format between the camera process and the gateway: a length of four bytes, the most
-- significant first (`htonl` and `ntohl` hide the byte order of the host), and then the packet.
use edgevision_rv1126b.Prelude.{
  ℕ, ◌+◌, ◌*◌, ◌/◌, ◌%◌, ◌^◌, ◌<◌, ◌≡◌, refl, List, [], ◌∷◌, ◌++◌, arith, length, drop,
}

-- The bytes in memory of `htonl(n)`.
unfoldable pub be32 : ℕ → List ℕ
be32 n = n / 2 ^ 24 % 256 ∷ n / 2 ^ 16 % 256 ∷ n / 2 ^ 8 % 256 ∷ n % 256 ∷ []

-- `memcpy(&net, p, 4)` and `ntohl(net)`.
unfoldable pub read_be32 : List ℕ → ℕ
read_be32 (a ∷ b ∷ c ∷ d ∷ _) = a * 2 ^ 24 + b * 2 ^ 16 + c * 2 ^ 8 + d
read_be32 _ = 0

-- What one packet puts on the wire.
unfoldable pub framed : List ℕ → List ℕ
framed packet = be32 (length packet) ++ packet

abbrev pub framed_all : List (List ℕ) → List ℕ
framed_all [] = []
framed_all (packet ∷ packets) = framed packet ++ framed_all packets

-- A length below 2^32 is read back as it was written, whatever follows.
pub read_be32-be32 : (n : ℕ) (rest : List ℕ) → n < 2 ^ 32 → read_be32 (be32 n ++ rest) ≡ n
unfolding read_be32 be32
read_be32-be32 n rest h = omega arith

pub length-be32 : (n : ℕ) → length (be32 n) ≡ 4
unfolding be32
length-be32 n = refl

pub drop-be32 : (n : ℕ) (rest : List ℕ) → drop 4 (be32 n ++ rest) ≡ rest
unfolding be32
drop-be32 n rest = refl
