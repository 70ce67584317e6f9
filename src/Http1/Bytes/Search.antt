-- ===== src/Http1/Bytes/Search.antt =====
-- src/load/http1/response-parser.ts: a terminator found in a first segment is found at the same
-- place when more bytes follow, and lies inside it.
use benchkit.Prelude.{
  ℕ, ◌+◌, ◌≤◌, ◌≡◌, refl, ap, ◌==◌, ◌&&◌, true, some, [], ◌∷◌, ◌++◌, arith, length, Option-cases,
  inl, inr,
}
use benchkit.Http1.Bytes.{Bytes, is_prefix, index_of}

is_prefix-append :
    (p xs ys : Bytes) → length p ≤ length xs → is_prefix p (xs ++ ys) ≡ is_prefix p xs
unfolding is_prefix
is_prefix-append [] xs ys h = refl
is_prefix-append (b ∷ p) [] ys h = absurd (omega arith)
is_prefix-append (b ∷ p) (x ∷ xs) ys h =
    ap (λ t. b == x && t) (is_prefix-append p xs ys (omega arith))

is_prefix-length : (p xs : Bytes) → is_prefix p xs ≡ true → length p ≤ length xs
unfolding is_prefix
is_prefix-length [] xs h = omega arith
is_prefix-length (b ∷ p) [] h = cc
is_prefix-length (b ∷ p) (x ∷ xs) h = ground (arith, is_prefix-length p xs)

pub index_of-length : (p xs : Bytes) (i : ℕ) → index_of p xs ≡ some i → i + length p ≤ length xs
unfolding index_of
index_of-length p [] i h = cc
index_of-length p (x ∷ xs) i h = elim (Option-cases (index_of p xs)) [
  | inl e ↦ ground (arith, is_prefix-length p (x ∷ xs))
  | inr (j, e) ↦ ground (arith, is_prefix-length p (x ∷ xs), index_of-length p xs j e)
]

pub index_of-append :
    (p xs ys : Bytes) (i : ℕ) → index_of p xs ≡ some i → index_of p (xs ++ ys) ≡ some i
unfolding index_of
index_of-append p [] ys i h = cc
index_of-append p (x ∷ xs) ys i h = elim (Option-cases (index_of p xs)) [
  | inl e ↦ ground (arith, is_prefix-append p (x ∷ xs) ys, is_prefix-length p (x ∷ xs))
  | inr (j, e) ↦
      ground (
        arith,
        is_prefix-append p (x ∷ xs) ys,
        index_of-length p xs j e,
        index_of-append p xs ys j e,
      )
]
