-- ===== src/Core/Payments/Injective.antt =====
-- What a signed digest of payments.rs commits to.
pub mod Tickets
use rootmode.Prelude.{
  ℕ, ◌^◌, ◌<◌, ◌≡◌, ◌≢◌, refl, sym, ap, ◌∙◌, ◌⊎◌, inl, inr, true, false, List, [], ◌∷◌, ◌++◌, arith,
  length, length-append, append_cancel, concat, concat_cancel, replicate, drop, All, Bool-cases,
  Option, none, some,
}
use rootmode.Prelude.Bytes.{Bytes, be_bytes, length-be_bytes, be_bytes-injective}
use rootmode.Prelude.Text.{Text, text, text_eq, text_eq_iff, utf8, strip_0x}
use rootmode.Prelude.Result.{Result, ok, err, >>=-ok}
use rootmode.Core.Errors.{CoreResult}
use rootmode.Core.Externals.{Externals}
use rootmode.Core.Payments.{
  Domain, word_u64, word_address, keccak, separator_named, digest_of_named, domain_version,
}

pub length-word_u64 : (n : ℕ) → length (word_u64 n) ≡ 32
unfolding word_u64
length-word_u64 n =
    length-append (replicate 24 0) (be_bytes 8 n) ∙ omega (arith, length-be_bytes 8 n)

pub word_u64-injective : (m n : ℕ) → m < 2 ^ 64 → n < 2 ^ 64 → word_u64 m ≡ word_u64 n → m ≡ n
unfolding word_u64
word_u64-injective m n hm hn e =
    be_bytes-injective 8 m n hm hn
      (append_cancel 24 (replicate 24 0) (replicate 24 0) _ _ refl refl e).1

module _ (X : Externals) where
  -- Two byte strings that differ and have one hash.
  abbrev pub Clash : Bytes → Bytes → Type 0
  Clash x y = (x ≢ y) × (keccak X x ≡ keccak X y)

  pub collide : (x y : Bytes) → keccak X x ≡ keccak X y → (x ≡ y) ⊎ Clash x y
  collide x y e = elim (Bool-cases (text_eq x y)) [
    | inl same ↦ inl ((text_eq_iff x y).0 same)
    | inr other ↦ inr (ground (arith, text_eq_iff x y), e)
  ]

  pub length-word_address : (a : Text) (w : Bytes) → word_address X a ≡ ok w → length w ≡ 32
  unfolding word_address
  length-word_address a w h = go (X.hex_decode (strip_0x a)) refl
    where
      go : (o : Option Bytes) → X.hex_decode (strip_0x a) ≡ o → length w ≡ 32
      go none e = ground arith
      go (some bytes) e = ground (arith, length-append (replicate 12 0) bytes)

  domain_type : Bytes
  domain_type = keccak X (
      utf8
        (text "EIP712Domain(string name,string version,uint256 chainId,address verifyingContract)"))

  domain_type-length : length domain_type ≡ 32
  unfolding domain_type
  domain_type-length = X.length-keccak256 _

  -- The parts under the separator's hash.
  pub separator_words : Domain → Text → Bytes → List Bytes
  separator_words d name contract =
      domain_type
      ∷ keccak X (utf8 name)
      ∷ keccak X (utf8 domain_version)
      ∷ word_u64 d.chain_id
      ∷ contract
      ∷ []

  -- The bytes that are hashed for a separator, nothing where the contract is no address.
  abbrev pub separator_of : Domain → Text → CoreResult Bytes → Bytes
  separator_of d name (err e) = []
  separator_of d name (ok contract) = concat (separator_words d name contract)

  abbrev pub separator_bytes : Domain → Text → Bytes
  separator_bytes d name = separator_of d name (word_address X d.verifying_contract)

  separator_parts :
      (d : Domain) (name : Text) (sep : Bytes)
      → separator_named X d name ≡ ok sep
      → (c : Bytes) × (word_address X d.verifying_contract ≡ ok c)
        × (separator_bytes d name ≡ concat (separator_words d name c))
        × (sep ≡ keccak X (separator_bytes d name))
  unfolding separator_named separator_words domain_type
  separator_parts d name sep h =
      let (c, e, f) = >>=-ok (word_address X d.verifying_contract) _ h in
      let bytes = ap (separator_of d name) e in
      let hash : sep ≡ keccak X (concat (separator_words d name c)) = ground arith in
      (c, e, bytes, hash ∙ ap (keccak X) (sym bytes))

  digest_parts :
      (d : Domain) (name : Text) (struct_hash h : Bytes)
      → digest_of_named X d name struct_hash ≡ ok h
      → (sep : Bytes) × (separator_named X d name ≡ ok sep)
        × (h ≡ keccak X (concat ((0x19 ∷ 0x01 ∷ []) ∷ sep ∷ struct_hash ∷ [])))
  unfolding digest_of_named
  digest_parts d name struct_hash h e =
      let (sep, f, g) = >>=-ok (separator_named X d name) _ e in (sep, f, ground arith)

  separator_length :
      (d : Domain) (name : Text) (c : Bytes)
      → length c ≡ 32
      → All (λ x. length x ≡ 32) (separator_words d name c)
  unfolding separator_words
  separator_length d name c h = (
    domain_type-length,
    (
      X.length-keccak256 (utf8 name),
      (X.length-keccak256 (utf8 domain_version), (length-word_u64 d.chain_id, (h, tt))),
    ),
  )

  separator_count : (d : Domain) (name : Text) (c : Bytes) → length (separator_words d name c) ≡ 5
  unfolding separator_words
  separator_count d name c = refl

  -- Equal separator preimages come from one chain, one contract and one name's hash.
  separator_cancel :
      (d d' : Domain) (n n' : Text) (c c' : Bytes)
      → d.chain_id < 2 ^ 64
      → d'.chain_id < 2 ^ 64
      → separator_words d n c ≡ separator_words d' n' c'
      → (d.chain_id ≡ d'.chain_id) × (c ≡ c')
  unfolding separator_words
  separator_cancel d d' n n' c c' b b' e =
      let word : word_u64 d.chain_id ≡ word_u64 d'.chain_id = cc in
      (word_u64-injective d.chain_id d'.chain_id b b' word, cc)

  abbrev pub OneDomain : Domain → Domain → Type 0
  OneDomain d d' =
      (d.chain_id ≡ d'.chain_id)
      × (word_address X d.verifying_contract ≡ word_address X d'.verifying_contract)

  -- Equal separators come from one domain, or show a clash.
  separator_binds :
      (d d' : Domain) (n n' : Text) (sep : Bytes)
      → d.chain_id < 2 ^ 64
      → d'.chain_id < 2 ^ 64
      → separator_named X d n ≡ ok sep
      → separator_named X d' n' ≡ ok sep
      → OneDomain d d' ⊎ Clash (separator_bytes d n) (separator_bytes d' n')
  separator_binds d d' n n' sep c c' p p' =
      let (w, pw, bw, qw) = separator_parts d n sep p in
      let (w', pw', bw', qw') = separator_parts d' n' sep p' in
      let l = separator_length d n w (length-word_address d.verifying_contract w pw) in
      let l' = separator_length d' n' w' (length-word_address d'.verifying_contract w' pw') in
      elim (collide (separator_bytes d n) (separator_bytes d' n') (sym qw ∙ qw')) [
        | inr clash ↦ inr clash
        | inl same ↦
            let words =
              concat_cancel 32 (separator_words d n w) (separator_words d' n' w') l l'
                (separator_count d n w ∙ sym (separator_count d' n' w')) (sym bw ∙ same ∙ bw') in
            let (chain, contract) = separator_cancel d d' n n' w w' c c' words in
            inl (chain, pw ∙ ap ok contract ∙ sym pw')
      ]

  -- The bytes that are hashed for a digest, by the separator and by the domain.
  abbrev pub preimage : Bytes → Bytes → Bytes
  preimage sep struct_hash = concat ((0x19 ∷ 0x01 ∷ []) ∷ sep ∷ struct_hash ∷ [])

  abbrev pub digest_bytes : Domain → Text → Bytes → Bytes
  digest_bytes d name b = preimage (keccak X (separator_bytes d name)) (keccak X b)

  -- Of the three strings that are hashed for two digests, one and its counterpart differ and have
  -- one hash.
  abbrev pub DigestClash : Domain → Text → Bytes → Domain → Text → Bytes → Type 0
  DigestClash d n b d' n' b' =
      Clash (digest_bytes d n b) (digest_bytes d' n' b')
      ⊎ (Clash b b' ⊎ Clash (separator_bytes d n) (separator_bytes d' n'))

  -- Equal digests come from one domain and one struct, or show a clash.
  pub digest_binds :
      (d d' : Domain) (n n' : Text) (b b' h : Bytes)
      → d.chain_id < 2 ^ 64
      → d'.chain_id < 2 ^ 64
      → digest_of_named X d n (keccak X b) ≡ ok h
      → digest_of_named X d' n' (keccak X b') ≡ ok h
      → ((b ≡ b') × OneDomain d d') ⊎ DigestClash d n b d' n' b'
  digest_binds d d' n n' b b' h c c' e e' =
      let (s, p, q) = digest_parts d n (keccak X b) h e in
      let (s', p', q') = digest_parts d' n' (keccak X b') h e' in
      let hash = (separator_parts d n s p).3 in
      let hash' = (separator_parts d' n' s' p').3 in
      let first = q ∙ ap (λ x. keccak X (preimage x (keccak X b))) hash in
      let second = q' ∙ ap (λ x. keccak X (preimage x (keccak X b'))) hash' in
      elim (collide (digest_bytes d n b) (digest_bytes d' n' b') (sym first ∙ second)) [
        | inr clash ↦ inr (inl clash)
        | inl same ↦
            let (seps, rest) =
              append_cancel 32 (keccak X (separator_bytes d n)) (keccak X (separator_bytes d' n'))
                (keccak X b ++ []) (keccak X b' ++ []) (X.length-keccak256 (separator_bytes d n))
                (X.length-keccak256 (separator_bytes d' n')) (ap (drop 2) same) in
            let (hashes, _) =
              append_cancel 32 (keccak X b) (keccak X b') [] [] (X.length-keccak256 b)
                (X.length-keccak256 b') rest in
            let one = hash ∙ seps ∙ sym hash' in
            elim (collide b b' hashes) [
              | inr clash ↦ inr (inr (inl clash))
              | inl structs ↦ elim (separator_binds d d' n n' s c c' p (p' ∙ ap ok (sym one))) [
                | inr clash ↦ inr (inr (inr clash))
                | inl domain ↦ inl (structs, domain)
              ]
            ]
      ]
