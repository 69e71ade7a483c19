-- ===== src/Worker/Chain/Rlp/Lists.antt =====
-- Lists of strings of chain.rs against the decoder.
use mathlib.Core.Option
use rootmode.Prelude.{
  ℕ, zero, suc, ◌+◌, ◌^◌, ◌≤◌, ◌<◌, ◌≡◌, refl, sym, ap, ◌∙◌, arith, false, some, List, [], ◌∷◌,
  ◌++◌, length, map, concat, All, ltb, length-append, append_nil,
}
use rootmode.Prelude.Bytes.{Bytes}
use rootmode.Worker.Chain.Rlp.{u64_be, rlp_wrap, rlp_bytes, rlp_u64, rlp_list}
use rootmode.Worker.Chain.Rlp.Decode.{payload, string, strings, list_of_strings}
use rootmode.Worker.Chain.Rlp.Exact.{length-u64_be, rlp_wrap-IsWrapped}

-- A code, with the string that a reader finds in it.
abbrev pub IsCode : Bytes × Bytes → Type 0
IsCode e = (rest : Bytes) → string (e.0 ++ rest) ≡ some (e.1, rest)

-- The strings of a concatenation of codes.
strings-concat :
    (es : List (Bytes × Bytes)) (fuel : ℕ)
    → All IsCode es
    → length (concat (map (λ e. e.0) es)) ≤ fuel
    → strings fuel (concat (map (λ e. e.0) es)) ≡ some (map (λ e. e.1) es)
unfolding strings Option.bind string
strings-concat [] fuel h enough = refl
strings-concat ((code, value) ∷ es) fuel h enough =
    go code fuel h.0 enough (λ n fits. strings-concat es n h.1 fits)
  where
    go :
        (c : Bytes) (n : ℕ)
        → IsCode (c, value)
        → length (c ++ concat (map (λ e. e.0) es)) ≤ n
        → ((m : ℕ)
            → length (concat (map (λ e. e.0) es)) ≤ m
            → strings m (concat (map (λ e. e.0) es)) ≡ some (map (λ e. e.1) es))
        → strings n (c ++ concat (map (λ e. e.0) es)) ≡ some (value ∷ map (λ e. e.1) es)
    go [] n reads fits next = absurd (cc (reads []))
    go (x ∷ xs) zero reads fits next = absurd (omega arith)
    go (x ∷ xs) (suc n) reads fits next =
        let rest = concat (map (λ e. e.0) es) in
        rw (reads rest, next n (omega (arith, length-append xs rest))) refl

pub length-rlp_bytes : (b : Bytes) → length (rlp_bytes b) ≤ length b + 9
unfolding rlp_bytes rlp_wrap
length-rlp_bytes b = ground (arith, length-append (u64_be (length b)) b, length-u64_be (length b))

pub length-rlp_u64 : (n : ℕ) → length (rlp_u64 n) ≤ 17
unfolding rlp_u64
length-rlp_u64 n = ground (arith, length-rlp_bytes (u64_be n), length-u64_be n)

-- A list of codes is read back as the list of their strings.
pub list_of_strings-rlp_list :
    (es : List (Bytes × Bytes))
    → All IsCode es
    → length (concat (map (λ e. e.0) es)) < 2 ^ 64
    → list_of_strings (rlp_list (map (λ e. e.0) es)) ≡ some (map (λ e. e.1) es)
unfolding rlp_list list_of_strings Option.bind
list_of_strings-rlp_list es h fits =
    let body = concat (map (λ e. e.0) es) in
    let w = rlp_wrap-IsWrapped 0xc0 0xf7 body refl fits in
    let low : ltb w.head 0xc0 ≡ false = ground (arith, w.low) in
    let reads : payload 0xc0 0xf7 w.head w.body ≡ some (body, []) =
      ap (payload 0xc0 0xf7 w.head) (sym (append_nil w.body)) ∙ w.reads [] in
    rw (w.form, low, reads) (strings-concat es (length body) h (omega arith))
