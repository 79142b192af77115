-- ===== src/Voice/Wire/RoundTrip.antt =====
-- dave/wire.rs: unpacking is the inverse of packing, and never panics.
use discord_voice_service.Common.{
  ℕ, ◌+◌, ◌%◌, ◌^◌, ◌<◌, ◌≡◌, Option, some, [], ◌∷◌, ◌++◌, length, ok, arith, length-append,
  take-append_length, drop-append_length, All-drop, fail_if, not, ◌==◌, ◌>>◌, >>=-eq-ok,
  le→ltb_false, Ensures, take-append-drop, append-nil, length-take, length-drop,
}
use discord_voice_service.Common.Maybe.{unwrap_or}
use discord_voice_service.Common.Bytes.{
  Bytes, AreBytes, be_bytes32, from_be32-be_bytes32, be_bytes32-from_be32, from_be32-lt, IsByte,
}
use discord_voice_service.Voice.Wire.{
  malformed_commit_welcome, pack_commit_welcome, take_exact, read_len_prefixed,
  unpack_commit_welcome,
}

take_exact-append : (xs ys : Bytes) (n : ℕ) → n ≡ length xs → take_exact (xs ++ ys) n ≡ ok (xs, ys)
unfolding take_exact
take_exact-append xs ys n e = rw (
  e,
  le→ltb_false (length (xs ++ ys)) (length xs) (omega (arith, length-append xs ys)),
  take-append_length xs ys,
  drop-append_length xs ys,
)

take_exact_all : (xs : Bytes) (n : ℕ) → n ≡ length xs → take_exact xs n ≡ ok (xs, [])
take_exact_all xs n e = rw append-nil at (take_exact-append xs [] n e)

read_len_prefixed-be_bytes32 :
    (n : ℕ) (rest : Bytes) → n < 2 ^ 32 → read_len_prefixed (be_bytes32 n ++ rest) ≡ ok (n, rest)
unfolding read_len_prefixed
read_len_prefixed-be_bytes32 n rest h = ground (arith, from_be32-be_bytes32 n h)

-- Unpacking what was packed gives back the commit and the welcome, an absent welcome as an empty
-- one, where both lengths fit 32 bits.
pub unpack-pack :
    (commit : Bytes) (welcome : Option Bytes)
    → length commit < 2 ^ 32
    → length (unwrap_or welcome []) < 2 ^ 32
    → unpack_commit_welcome (pack_commit_welcome commit welcome) ≡ ok (commit, unwrap_or welcome [])
unfolding unpack_commit_welcome pack_commit_welcome
unpack-pack commit welcome hc hw =
    let w = unwrap_or welcome [] in
    rw (
      read_len_prefixed-be_bytes32 (length commit % 2 ^ 32)
          (commit ++ (be_bytes32 (length w % 2 ^ 32) ++ w)) (omega arith),
      take_exact-append commit (be_bytes32 (length w % 2 ^ 32) ++ w) (length commit % 2 ^ 32)
          (omega arith),
      read_len_prefixed-be_bytes32 (length w % 2 ^ 32) w (omega arith),
      take_exact_all w (length w % 2 ^ 32) (omega arith),
    )

take_exact-eq-ok :
    (input : Bytes) (n : ℕ) (xs ys : Bytes)
    → take_exact input n ≡ ok (xs, ys)
    → AreBytes input
    → (length xs ≡ n) × (input ≡ xs ++ ys) × AreBytes ys
unfolding take_exact
take_exact-eq-ok input n xs ys e h =
    ground (arith, length-take n input, take-append-drop n input, All-drop IsByte n input h)

-- What a length prefix and its rest were read from.
read_len_prefixed-eq-ok :
    (input : Bytes) (n : ℕ) (rest : Bytes)
    → AreBytes input
    → read_len_prefixed input ≡ ok (n, rest)
    → (n < 2 ^ 32) × (input ≡ be_bytes32 n ++ rest) × AreBytes rest
unfolding read_len_prefixed
read_len_prefixed-eq-ok [] n rest h e = cc
read_len_prefixed-eq-ok (a ∷ []) n rest h e = cc
read_len_prefixed-eq-ok (a ∷ b ∷ []) n rest h e = cc
read_len_prefixed-eq-ok (a ∷ b ∷ c ∷ []) n rest h e = cc
read_len_prefixed-eq-ok (a ∷ b ∷ c ∷ d ∷ more) n rest h e =
    ground (arith, be_bytes32-from_be32 a b c d, from_be32-lt a b c d)

-- The four steps of the unpacking put together.
assemble :
    {input commit welcome : Bytes} (r1 c r2 r3 w r4 : Bytes) (n m : ℕ)
    → n < 2 ^ 32
    → m < 2 ^ 32
    → length c ≡ n
    → length w ≡ m
    → input ≡ be_bytes32 n ++ r1
    → r1 ≡ c ++ r2
    → r2 ≡ be_bytes32 m ++ r3
    → r3 ≡ w ++ r4
    → ◌>>◌ {B = Bytes × Bytes} (fail_if (not (length r4 == 0)) malformed_commit_welcome) (ok (c, w))
      ≡ ok (commit, welcome)
    → pack_commit_welcome commit (some welcome) ≡ input
unfolding pack_commit_welcome
assemble r1 c r2 r3 w (x ∷ xs) n m hn hm lc lw e1 e2 e3 e4 k = ground arith
assemble r1 c r2 r3 w [] n m hn hm lc lw e1 e2 e3 e4 k = ground (arith, append-nil w)

-- Packing what was unpacked gives back the bytes that were unpacked.
pack-unpack :
    (input commit welcome : Bytes)
    → AreBytes input
    → unpack_commit_welcome input ≡ ok (commit, welcome)
    → pack_commit_welcome commit (some welcome) ≡ input
unfolding unpack_commit_welcome pack_commit_welcome
pack-unpack input commit welcome h e =
    let (p, e1, k1) = >>=-eq-ok (read_len_prefixed input) _ e in
    let (b1, s1, h1) = read_len_prefixed-eq-ok input p.0 p.1 h e1 in
    let (q, e2, k2) = >>=-eq-ok (take_exact p.1 p.0) _ k1 in
    let (b2, s2, h2) = take_exact-eq-ok p.1 p.0 q.0 q.1 e2 h1 in
    let (r, e3, k3) = >>=-eq-ok (read_len_prefixed q.1) _ k2 in
    let (b3, s3, h3) = read_len_prefixed-eq-ok q.1 r.0 r.1 h2 e3 in
    let (t, e4, k4) = >>=-eq-ok (take_exact r.1 r.0) _ k3 in
    let (b4, s4, h4) = take_exact-eq-ok r.1 r.0 t.0 t.1 e4 h3 in
    assemble p.1 q.0 q.1 r.1 t.0 t.1 p.0 r.0 b1 b3 b2 b4 s1 s2 s3 s4 k4

take_exact-Ensures :
    (input : Bytes) (n : ℕ)
    → Ensures
        (λ p. (length p.0 ≡ n) × (length p.0 + length p.1 ≡ length input))
        (take_exact input n)
unfolding take_exact
take_exact-Ensures input n = ground (arith, length-take n input, length-drop n input)

read_len_prefixed-Ensures :
    (input : Bytes) → Ensures (λ p. length p.1 + 4 ≡ length input) (read_len_prefixed input)
unfolding read_len_prefixed
read_len_prefixed-Ensures [] = tt
read_len_prefixed-Ensures (a ∷ []) = tt
read_len_prefixed-Ensures (a ∷ b ∷ []) = tt
read_len_prefixed-Ensures (a ∷ b ∷ c ∷ []) = tt
read_len_prefixed-Ensures (a ∷ b ∷ c ∷ d ∷ rest) = ground arith

-- Unpacking ends on any bytes without a panic, and what it accepts is accounted for in full: the
-- input is eight bytes longer than the commit and the welcome.
pub unpack_commit_welcome-Ensures :
    (input : Bytes)
    → Ensures (λ p. length p.0 + length p.1 + 8 ≡ length input) (unpack_commit_welcome input)
unfolding unpack_commit_welcome
unpack_commit_welcome-Ensures input = grind (arith, read_len_prefixed-Ensures, take_exact-Ensures)
