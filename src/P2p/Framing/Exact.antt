-- ===== src/P2p/Framing/Exact.antt =====
-- recv of framing.rs, however the stream cuts its bytes into parts.
use rootmode.Prelude.{
  ℕ, zero, suc, ◌≤◌, ◌≡◌, refl, sym, ap, ◌∙◌, arith, true, false, inl, inr, Option, none, some,
  List, [], ◌∷◌, ◌++◌, length, length-append, take, drop, All, concat, append_assoc, append_nil,
  ltb, is_empty, map, if◌then◌else◌, Option-cases,
}
use rootmode.Prelude.Bytes.{Bytes}
use rootmode.Prelude.Text.{Text, utf8}
use rootmode.Prelude.Utf8.{IsText, from_utf8-utf8}
use rootmode.Prelude.Result.{Result, ok, err, ok_or}
use rootmode.P2p.Framing.{
  P2pError, max_line_bytes, newline_at, consume, finish, map_some, at_end, recv_loop, recv, send,
}
use rootmode.P2p.Framing.Lines.{
  IsLine, IsLine-append, newline_some, newline_none, line_cut, line_prefix,
}

-- No part is empty: the stream has not ended before its bytes did.
abbrev pub IsOpen : List Bytes → Type 0
IsOpen = All (λ c. is_empty c ≡ false)

consume-concat :
    (n : ℕ) (c : Bytes) (cs : List Bytes) → concat (consume n (c ∷ cs)) ≡ drop n c ++ concat cs
unfolding consume
consume-concat n c cs = go (drop n c)
  where
    go : (l : Bytes) → concat (if is_empty l then cs else l ∷ cs) ≡ l ++ concat cs
    go [] = refl
    go (b ∷ bs) = refl

consume-IsOpen : (n : ℕ) (c : Bytes) (cs : List Bytes) → IsOpen cs → IsOpen (consume n (c ∷ cs))
unfolding consume
consume-IsOpen n c cs h = go (drop n c)
  where
    go : (l : Bytes) → IsOpen (if is_empty l then cs else l ∷ cs)
    go [] = h
    go (b ∷ bs) = (refl, h)

-- One line was received: its text, with a reader that shows the bytes behind it.
pub record Received (line rest : Bytes) (out : Result P2pError (Option Text) × List Bytes)
    : Type 0 where
  pub result : out.0 ≡ map_some (finish line)
  pub left : concat out.1 ≡ rest
  pub still_open : IsOpen out.1

recv_loop-line :
    (buf line rest : Bytes) (parts : List Bytes)
    → IsLine buf
    → IsLine line
    → length line ≤ max_line_bytes
    → IsOpen parts
    → buf ++ concat parts ≡ line ++ 10 ∷ rest
    → Received line rest (recv_loop buf parts)
unfolding recv_loop
recv_loop-line buf line rest [] hb hl fits apart e = absurd (
    omega (
      arith,
      line_prefix buf line [] rest hb hl e,
      ap length e,
      ap length (append_nil buf),
      length-append line (10 ∷ rest),
    ))
recv_loop-line buf line rest (c ∷ cs) hb hl fits apart e = elim (Option-cases (newline_at c)) [
  | inl whole ↦
      let within : IsLine (buf ++ c) = IsLine-append buf c hb (newline_none c whole) in
      let same = append_assoc buf c (concat cs) ∙ e in
      let short = line_prefix (buf ++ c) line (concat cs) rest within hl same in
      let test : ltb max_line_bytes (length (buf ++ c)) ≡ false = ground arith in
      rw (apart.0, whole, test) (recv_loop-line (buf ++ c) line rest cs within hl fits apart.1 same)
  | inr (i, found) ↦
      let (cut, head) = newline_some c i found in
      let begun = buf ++ take i c in
      let shape : begun ++ 10 ∷ (drop (suc i) c ++ concat cs) ≡ line ++ 10 ∷ rest =
        append_assoc buf (take i c) (10 ∷ (drop (suc i) c ++ concat cs))
        ∙ ap (λ t. buf ++ t)
            (sym (append_assoc (take i c) (10 ∷ drop (suc i) c) (concat cs))
              ∙ ap (λ t. t ++ concat cs) (sym cut))
        ∙ e in
      let (line_same, rest_same) =
        line_cut begun line (drop (suc i) c ++ concat cs) rest
          (IsLine-append buf (take i c) hb head) hl shape in
      rw (apart.0, found)
        (record {
          result = ap (λ l. map_some (finish l)) line_same;
          left = consume-concat (suc i) c cs ∙ rest_same;
          still_open = consume-IsOpen (suc i) c cs apart.1;
        })
]

-- A text that fits a line: scalar values, no line end, and no more bytes than are buffered.
pub record IsMessage (t : Text) : Type 0 where
  pub scalars : IsText t
  pub line : IsLine (utf8 t)
  pub fits : length (utf8 t) ≤ max_line_bytes

-- What has been sent after each of the texts was.
unfoldable pub sent_all : Bytes → List Text → Result P2pError Bytes
sent_all before [] = ok before
sent_all before (t ∷ ts) = elim (send before (some t) true) [
  | err e ↦ err e
  | ok bytes ↦ sent_all bytes ts
]

-- The results of so many calls of `recv`, one after another.
unfoldable pub received : ℕ → List Bytes → List (Result P2pError (Option Text))
unfolding recv
received zero parts = []
received (suc n) parts = (recv parts).0 ∷ received n (recv parts).1

abbrev lines : List Text → Bytes
lines [] = []
lines (t ∷ ts) = utf8 t ++ 10 ∷ lines ts

sent_all-lines : (before : Bytes) (ts : List Text) → sent_all before ts ≡ ok (before ++ lines ts)
unfolding sent_all send
sent_all-lines before [] = ap ok (sym (append_nil before))
sent_all-lines before (t ∷ ts) =
    sent_all-lines (before ++ utf8 t ++ 10 ∷ []) ts
    ∙ ap ok (
        append_assoc (before ++ utf8 t) (10 ∷ []) (lines ts)
        ∙ append_assoc before (utf8 t) (10 ∷ lines ts))

recv-end : (parts : List Bytes) → IsOpen parts → concat parts ≡ [] → recv parts ≡ (ok none, [])
unfolding recv recv_loop at_end
recv-end [] h e = refl
recv-end ([] ∷ cs) h e = absurd (cc (h.0))
recv-end ((b ∷ c) ∷ cs) h e = absurd (cc e)

received-lines :
    (ts : List Text) (parts : List Bytes)
    → All IsMessage ts
    → IsOpen parts
    → concat parts ≡ lines ts
    → received (suc (length ts)) parts ≡ map (λ t. ok (some t)) ts ++ ok none ∷ []
unfolding received recv finish
received-lines [] parts h apart e = ap (λ r. r.0 ∷ []) (recv-end parts apart e)
received-lines (t ∷ ts) parts h apart e =
    let got = recv_loop-line [] (utf8 t) (lines ts) parts tt h.0.line h.0.fits apart e in
    let here : (recv parts).0 ≡ ok (some t) =
      got.result ∙ ap (λ o. map_some (ok_or o P2pError.not_utf8)) (from_utf8-utf8 t h.0.scalars) in
    cc (here, received-lines ts (recv parts).1 h.1 got.still_open got.left)

-- Texts that are sent one after another are received one by one in their order, and then the
-- end of the stream, however the stream cuts the bytes into parts that are not empty. Each text
-- consists of scalar values, has no line end among its bytes, and has no more bytes than a line
-- may have.
pub received-sent_all :
    (ts : List Text) (parts : List Bytes) (bytes : Bytes)
    → All IsMessage ts
    → sent_all [] ts ≡ ok bytes
    → IsOpen parts
    → concat parts ≡ bytes
    → received (suc (length ts)) parts ≡ map (λ t. ok (some t)) ts ++ ok none ∷ []
received-sent_all ts parts bytes h sent apart e =
    received-lines ts parts h apart (e ∙ cc (sent, sent_all-lines [] ts))
