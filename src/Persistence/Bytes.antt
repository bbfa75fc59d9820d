-- ===== src/Persistence/Bytes.antt =====
-- The bytes of the structures that the journal writes and reads back, little-endian as on the platforms
-- that the code builds for.
use flux_trade.Prelude.{
  ℕ, zero, suc, ◌+◌, ◌*◌, ◌/◌, ◌%◌, ◌^◌, ◌<◌, Option, none, some, List, [], ◌∷◌, ◌++◌, ◌≡◌, refl,
  ap, arith, length,
}

-- The k low bytes of a number.
unfoldable pub bytes_of : ℕ → ℕ → List ℕ
bytes_of zero n = []
bytes_of (suc k) n = n % 256 ∷ bytes_of k (n / 256)

-- The number of the first k bytes, with the bytes behind them.
unfoldable pub take_word : ℕ → List ℕ → ℕ × List ℕ
take_word zero bs = (0, bs)
take_word (suc k) [] = (0, [])
take_word (suc k) (b ∷ bs) = let (n, rest) = take_word k bs in (b + 256 * n, rest)

-- ifstream::read of k bytes: `none` where fewer are there.
unfoldable pub read_bytes : ℕ → List ℕ → Option (List ℕ × List ℕ)
read_bytes zero bs = some ([], bs)
read_bytes (suc k) [] = none
read_bytes (suc k) (b ∷ bs) = elim (read_bytes k bs) [
  | none ↦ none
  | some (xs, rest) ↦ some (b ∷ xs, rest)
]

pub length-bytes_of : (k n : ℕ) → length (bytes_of k n) ≡ k
unfolding bytes_of
length-bytes_of zero n = refl
length-bytes_of (suc k) n = omega (arith, length-bytes_of k (n / 256))

pub take_word-bytes_of :
    (k n : ℕ) (rest : List ℕ) → n < 256 ^ k → take_word k (bytes_of k n ++ rest) ≡ (n, rest)
unfolding bytes_of take_word
take_word-bytes_of zero n rest h = ap (λ m. (m, rest)) (omega arith)
take_word-bytes_of (suc k) n rest h =
    rw (take_word-bytes_of k (n / 256) rest (omega (arith, h))) (ap (λ m. (m, rest)) (omega arith))

pub read_bytes-append :
    (k : ℕ) (xs rest : List ℕ) → length xs ≡ k → read_bytes k (xs ++ rest) ≡ some (xs, rest)
unfolding read_bytes
read_bytes-append zero [] rest h = refl
read_bytes-append zero (x ∷ xs) rest h = absurd (omega (arith, h))
read_bytes-append (suc k) [] rest h = absurd (omega (arith, h))
read_bytes-append (suc k) (x ∷ xs) rest h = rw (read_bytes-append k xs rest (omega (arith, h))) refl
