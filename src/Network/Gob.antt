-- ===== src/Network/Gob.antt =====
-- encoding/gob is not part of the repository: an encoder and a decoder of one type are a parameter.
-- What the program relies on is stated of the values that it sends.
use k8_p2p_failover_poc.Prelude.{
  ℕ, ◌≡◌, ◌≤◌, String, Option, none, some, List, [], ◌++◌, take, length, take-of_le, arith,
}

-- `encode` gives the bytes or an error, `decode` the value, filled in as far as it goes, and an error.
pub record Gob {ℓ} (A : Type ℓ) : Type ℓ where
  pub encode : A → Option (List ℕ)
  pub decode : List ℕ → A × Option String

-- The value is encoded in `n` bytes, and a decoder that is given those and any others behind them
-- returns it with no error. (gob sends no empty slice: a value that holds one is not transmitted.)
pub record Transmits {ℓ} {A : Type ℓ} (g : Gob A) (a : A) (n : ℕ) : Type ℓ where
  pub bytes : List ℕ
  pub encoded : g.encode a ≡ some bytes
  pub size : length bytes ≡ n
  pub decoded : (rest : List ℕ) → g.decode (bytes ++ rest) ≡ (a, none)

module _ {ℓ} {A : Type ℓ} (g : Gob A) where
  -- The encoders of the program: an error of gob is logged and dropped, and at most `limit` bytes
  -- are read from the buffer.
  unfoldable pub encode_within : ℕ → A → List ℕ × Option String
  encode_within limit a = elim (g.encode a) [
    | none ↦ ([], none)
    | some bytes ↦ (take limit bytes, none)
  ]

  -- A value whose encoding fits the sender's buffer and the receiver's is read as it was sent.
  pub decode-encode_within :
      (limit buffer n : ℕ) (a : A) (t : Transmits g a n) (padding : List ℕ)
      → n ≤ limit
      → n ≤ buffer
      → g.decode (take buffer (encode_within limit a).0 ++ padding) ≡ (a, none)
  unfolding encode_within
  decode-encode_within limit buffer n a t padding h k = ground (
    arith,
    t.encoded,
    t.size,
    take-of_le limit t.bytes,
    take-of_le buffer t.bytes,
    t.decoded padding,
  )
