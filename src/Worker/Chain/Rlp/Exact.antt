-- ===== src/Worker/Chain/Rlp/Exact.antt =====
-- The encoder of chain.rs against the decoder.
use mathlib.Core.Option
use rootmode.Prelude.{
  ℕ, zero, suc, ◌+◌, ◌-◌, ◌^◌, ◌≤◌, ◌<◌, ◌≡◌, refl, ◌∙◌, arith, true, false, Bool-cases, inl, inr,
  Option, none, some, [], ◌∷◌, ◌++◌, length, take, drop, all, leb, ltb, ◌==◌, if◌then◌else◌,
  append_assoc, length-append, length-drop, take-append_length, drop-append_length,
}
use rootmode.Prelude.Bytes.{Bytes, be_bytes, be_value, length-be_bytes, be_value-be_bytes}
use rootmode.Worker.Chain.Rlp.{
  position_nonzero, or_else, u64_be, rlp_wrap, is_own_code, rlp_bytes, rlp_u64,
}
use rootmode.Worker.Chain.Rlp.Decode.{split, payload, string}

-- Zeros in front add nothing.
be_value-drop :
    (k : ℕ) (b : Bytes) → all (λ x. x == 0) (take k b) ≡ true → be_value 0 (drop k b) ≡ be_value 0 b
unfolding be_value
be_value-drop zero b h = refl
be_value-drop (suc k) [] h = refl
be_value-drop (suc k) (x ∷ b) h =
    let zero_head : x ≡ 0 = ground arith in
    be_value-drop k b (ground arith) ∙ rw (zero_head, be_value) refl

-- What stands before the first byte that is not zero is zero.
zeros_none : (k : ℕ) (b : Bytes) → position_nonzero b ≡ none → all (λ x. x == 0) (take k b) ≡ true
unfolding position_nonzero
zeros_none zero b h = refl
zeros_none (suc k) [] h = refl
zeros_none (suc k) (x ∷ b) h = ground (arith, zeros_none k b)

zeros_some : (i : ℕ) (b : Bytes) → position_nonzero b ≡ some i → all (λ x. x == 0) (take i b) ≡ true
unfolding position_nonzero
zeros_some i [] h = cc
zeros_some zero (x ∷ b) h = refl
zeros_some (suc i) (x ∷ b) h = ground (arith, zeros_some i b)

position-lt : (i : ℕ) (b : Bytes) → position_nonzero b ≡ some i → i < length b
unfolding position_nonzero
position-lt i [] h = cc
position-lt zero (x ∷ b) h = omega arith
position-lt (suc i) (x ∷ b) h = ground (arith, position-lt i b)

pub u64_be-value : (n : ℕ) → n < 2 ^ 64 → be_value 0 (u64_be n) ≡ n
unfolding u64_be
u64_be-value n h = go (position_nonzero (be_bytes 8 n)) refl
  where
    go :
        (o : Option ℕ)
        → position_nonzero (be_bytes 8 n) ≡ o
        → be_value 0 (drop (or_else 7 o) (be_bytes 8 n)) ≡ n
    go none e =
        be_value-drop 7 (be_bytes 8 n) (zeros_none 7 (be_bytes 8 n) e) ∙ be_value-be_bytes 8 n h
    go (some i) e =
        be_value-drop i (be_bytes 8 n) (zeros_some i (be_bytes 8 n) e) ∙ be_value-be_bytes 8 n h

pub length-u64_be : (n : ℕ) → (0 < length (u64_be n)) × (length (u64_be n) ≤ 8)
unfolding u64_be
length-u64_be n = go (position_nonzero (be_bytes 8 n)) refl
  where
    go :
        (o : Option ℕ)
        → position_nonzero (be_bytes 8 n) ≡ o
        → let i = or_else 7 o in
          (0 < length (drop i (be_bytes 8 n))) × (length (drop i (be_bytes 8 n)) ≤ 8)
    go none e = omega (arith, length-drop 7 (be_bytes 8 n), length-be_bytes 8 n)
    go (some i) e =
        omega
          (arith, length-drop i (be_bytes 8 n), length-be_bytes 8 n, position-lt i (be_bytes 8 n) e)

split-append : (n : ℕ) (b rest : Bytes) → length b ≡ n → split n (b ++ rest) ≡ some (b, rest)
split-append n b rest h =
    let fits : leb n (length (b ++ rest)) ≡ true = ground (arith, length-append b rest) in
    rw (fits, take-append_length n b rest h, drop-append_length n b rest h) refl

-- What a wrapped string is for a reader: a header within its range, and the payload behind it.
pub record IsWrapped (short long : ℕ) (b out : Bytes) : Type 0 where
  pub head : ℕ
  pub body : Bytes
  pub form : out ≡ head ∷ body
  pub low : short ≤ head
  pub high : head ≤ long + 8
  pub reads : (rest : Bytes) → payload short long head (body ++ rest) ≡ some (b, rest)

pub rlp_wrap-IsWrapped :
    (short long : ℕ) (b : Bytes)
    → long ≡ short + 55
    → length b < 2 ^ 64
    → IsWrapped short long b (rlp_wrap short long b)
unfolding rlp_wrap payload Option.bind
rlp_wrap-IsWrapped short long b gap fits = elim (Bool-cases (leb (length b) 55)) [
  | inl is_short ↦ record {
    head = short + length b;
    body = b;
    form = rw is_short refl;
    low = omega arith;
    high = ground arith;
    reads = λ rest.
        let test : leb (short + length b) (short + 55) ≡ true = ground arith in
        let count : short + length b - short ≡ length b = omega arith in
        rw (test, count) (split-append (length b) b rest refl);
  }
  | inr is_long ↦
      let lb = u64_be (length b) in
      let size = length-u64_be (length b) in
      record {
        head = long + length lb;
        body = lb ++ b;
        form = rw is_long refl;
        low = omega arith;
        high = omega (arith, size);
        reads = λ rest.
            let test : leb (long + length lb) (short + 55) ≡ false = ground (arith, size) in
            let count : long + length lb - long ≡ length lb = omega arith in
            let first = split-append (length lb) lb (b ++ rest) refl in
            rw (test, count, append_assoc lb b rest, first, u64_be-value (length b) fits)
              (split-append (length b) b rest refl);
      }
]

-- A string is read back, whatever follows it.
pub string-rlp_bytes :
    (b rest : Bytes) → length b < 2 ^ 64 → string (rlp_bytes b ++ rest) ≡ some (b, rest)
unfolding string rlp_bytes is_own_code
string-rlp_bytes b rest fits = elim (Bool-cases (is_own_code b)) [
  | inl own ↦ rw own (own_code b own)
  | inr wrapped ↦
      let w = rlp_wrap-IsWrapped 0x80 0xb7 b refl fits in
      let low : ltb w.head 0x80 ≡ false = ground (arith, w.low) in
      let high : ltb w.head 0xc0 ≡ true = ground (arith, w.high) in
      rw (wrapped, w.form, low, high) (w.reads rest)
]
  where
    own_code : (c : Bytes) → is_own_code c ≡ true → string (c ++ rest) ≡ some (c, rest)
    own_code [] h = cc
    own_code (x ∷ []) h = rw h refl
    own_code (x ∷ y ∷ c) h = cc

-- A number is read back from its string.
abbrev pub number_code : ℕ → Bytes
number_code n = if n == 0 then [] else u64_be n

pub string-rlp_u64 :
    (n : ℕ) (rest : Bytes) → string (rlp_u64 n ++ rest) ≡ some (number_code n, rest)
unfolding rlp_u64 string payload
string-rlp_u64 n rest = elim (Bool-cases (n == 0)) [
  | inl is_zero ↦ rw is_zero (split-append 0 [] rest refl)
  | inr other ↦ rw other (string-rlp_bytes (u64_be n) rest (omega (arith, length-u64_be n)))
]

pub be_value-number_code : (n : ℕ) → n < 2 ^ 64 → be_value 0 (number_code n) ≡ n
unfolding be_value
be_value-number_code n fits = elim (Bool-cases (n == 0)) [
  | inl is_zero ↦ rw is_zero (ground arith)
  | inr other ↦ rw other (u64_be-value n fits)
]
