-- ===== src/Core/Payments/Injective/Tickets.antt =====
-- SpendTicket and ReserveTicket of payments.rs: one digest is one authorisation.
use rootmode.Prelude.{
  ℕ, ◌^◌, ◌<◌, ◌≡◌, ◌≢◌, refl, sym, ap, ◌∙◌, ◌⊎◌, inl, inr, List, [], ◌∷◌, arith, length, concat,
  concat_cancel, All,
}
use rootmode.Prelude.Bytes.{Bytes}
use rootmode.Prelude.Text.{text, text_eq, text_eq_iff, utf8}
use rootmode.Prelude.Result.{ok, err, >>=-ok}
use rootmode.Core.Errors.{CoreResult}
use rootmode.Core.Externals.{Externals}
use rootmode.Core.Payments.{Domain, word_u64, word_address, keccak, pot_domain_name}
use rootmode.Core.Payments.SpendTicket
use rootmode.Core.Payments.SpendTicket.{SpendTicket}
use rootmode.Core.Payments.ReserveTicket
use rootmode.Core.Payments.ReserveTicket.{ReserveTicket}
use rootmode.Core.Payments.Injective.{
  Clash, DigestClash, OneDomain, digest_binds, length-word_address, length-word_u64,
  word_u64-injective,
}

pub spend_type : Bytes
spend_type =
    utf8
      (text "SpendTicket(address client,address workerPayout,uint256 cumulative,uint64 deadline)")

pub reserve_type : Bytes
reserve_type =
    utf8
      (text "ReserveTicket(address client,address workerPayout,uint256 maxAmount,uint64 deadline)")

types_differ : spend_type ≢ reserve_type
unfolding spend_type reserve_type text_eq utf8
types_differ e = ground (arith, text_eq_iff spend_type reserve_type)

module _ (X : Externals) where
  -- A struct of two addresses and two amounts, as its words.
  abbrev struct_words : Bytes → Bytes → Bytes → ℕ → ℕ → List Bytes
  struct_words ty c w a b = keccak X ty ∷ c ∷ w ∷ word_u64 a ∷ word_u64 b ∷ []

  spend_parts :
      (t : SpendTicket) (buf : Bytes)
      → SpendTicket.encode X t ≡ ok buf
      → (c w : Bytes) × (word_address X t.client ≡ ok c)
        × (word_address X t.worker_payout ≡ ok w)
        × (buf ≡ concat (struct_words spend_type c w t.cumulative t.deadline))
  unfolding SpendTicket.encode spend_type
  spend_parts t buf h =
      let (c, e, f) = >>=-ok (word_address X t.client) _ h in
      let (w, e', f') = >>=-ok (word_address X t.worker_payout) _ f in (c, w, e, e', ground arith)

  reserve_parts :
      (t : ReserveTicket) (buf : Bytes)
      → ReserveTicket.encode X t ≡ ok buf
      → (c w : Bytes) × (word_address X t.client ≡ ok c)
        × (word_address X t.worker_payout ≡ ok w)
        × (buf ≡ concat (struct_words reserve_type c w t.max_amount t.deadline))
  unfolding ReserveTicket.encode reserve_type
  reserve_parts t buf h =
      let (c, e, f) = >>=-ok (word_address X t.client) _ h in
      let (w, e', f') = >>=-ok (word_address X t.worker_payout) _ f in (c, w, e, e', ground arith)

  struct_length :
      (ty c w : Bytes) (a b : ℕ)
      → length c ≡ 32
      → length w ≡ 32
      → All (λ x. length x ≡ 32) (struct_words ty c w a b)
  struct_length ty c w a b hc hw =
      (X.length-keccak256 ty, (hc, (hw, (length-word_u64 a, (length-word_u64 b, tt)))))

  -- The bytes that an encoding succeeds with.
  abbrev pub bytes_of : CoreResult Bytes → Bytes
  bytes_of (err e) = []
  bytes_of (ok b) = b

  -- Two spend tickets that authorise one payment.
  pub record SameSpend (t t' : SpendTicket) : Type 0 where
    pub client : word_address X t.client ≡ word_address X t'.client
    pub worker : word_address X t.worker_payout ≡ word_address X t'.worker_payout
    pub cumulative : t.cumulative ≡ t'.cumulative
    pub deadline : t.deadline ≡ t'.deadline

  -- The numbers of a signed ticket are `u64` values.
  pub record FitsSpend (t : SpendTicket) (d : Domain) : Type 0 where
    pub cumulative : t.cumulative < 2 ^ 64
    pub deadline : t.deadline < 2 ^ 64
    pub chain_id : d.chain_id < 2 ^ 64

  encode_binds :
      (t t' : SpendTicket) (d d' : Domain) (buf : Bytes)
      → FitsSpend t d
      → FitsSpend t' d'
      → SpendTicket.encode X t ≡ ok buf
      → SpendTicket.encode X t' ≡ ok buf
      → SameSpend t t'
  encode_binds t t' d d' buf f f' h h' =
      let (c, w, ec, ew, eb) = spend_parts t buf h in
      let (c', w', ec', ew', eb') = spend_parts t' buf h' in
      let words =
        concat_cancel 32 (struct_words spend_type c w t.cumulative t.deadline)
          (struct_words spend_type c' w' t'.cumulative t'.deadline)
          (struct_length spend_type c w t.cumulative t.deadline
            (length-word_address X t.client c ec) (length-word_address X t.worker_payout w ew))
          (struct_length spend_type c' w' t'.cumulative t'.deadline
            (length-word_address X t'.client c' ec')
            (length-word_address X t'.worker_payout w' ew'))
          refl (sym eb ∙ eb') in
      let amount : word_u64 t.cumulative ≡ word_u64 t'.cumulative = cc in
      let until : word_u64 t.deadline ≡ word_u64 t'.deadline = cc in
      record {
        client = cc;
        worker = cc;
        cumulative =
            word_u64-injective t.cumulative t'.cumulative f.cumulative f'.cumulative amount;
        deadline = word_u64-injective t.deadline t'.deadline f.deadline f'.deadline until;
      }

  -- Two spend tickets whose digests are equal, each within the bounds of its fields and under a
  -- domain whose chain id is a u64, have the same contents (texts compared as the bytes they
  -- name, amounts as numbers) and stand under one domain, or else one of the strings that are
  -- hashed on the way, namely the ticket's bytes, the separator's and the digest's, differs
  -- from its counterpart and has the same hash.
  pub spend_digest_binds :
      (t t' : SpendTicket) (d d' : Domain) (h : Bytes)
      → FitsSpend t d
      → FitsSpend t' d'
      → SpendTicket.digest X t d ≡ ok h
      → SpendTicket.digest X t' d' ≡ ok h
      → (SameSpend t t' × OneDomain X d d')
        ⊎ DigestClash X d pot_domain_name
            (bytes_of (SpendTicket.encode X t))
            d'
            pot_domain_name
            (bytes_of (SpendTicket.encode X t'))
  unfolding SpendTicket.digest
  spend_digest_binds t t' d d' h f f' e e' =
      let (b, p, q) = >>=-ok (SpendTicket.encode X t) _ e in
      let (b', p', q') = >>=-ok (SpendTicket.encode X t') _ e' in
      elim (digest_binds X d d' pot_domain_name pot_domain_name b b' h f.chain_id f'.chain_id q
        q') [
          | inr clash ↦ inr (rw (p, p') clash)
          | inl (same, domain) ↦
              inl (encode_binds t t' d d' b f f' p (p' ∙ ap ok (sym same)), domain)
        ]

  -- A spend ticket and a reserve ticket never have the same digest, under chain ids that are
  -- u64, unless two of the strings that are hashed on the way collide: the two type strings,
  -- which differ, or a pair of counterparts among the tickets' bytes, the separators' and the
  -- digests' that differ and have one hash.
  pub spend_digest-ne_reserve :
      (t : SpendTicket) (r : ReserveTicket) (d d' : Domain) (h : Bytes)
      → d.chain_id < 2 ^ 64
      → d'.chain_id < 2 ^ 64
      → SpendTicket.digest X t d ≡ ok h
      → ReserveTicket.digest X r d' ≡ ok h
      → Clash X spend_type reserve_type
        ⊎ DigestClash X d pot_domain_name
            (bytes_of (SpendTicket.encode X t))
            d'
            pot_domain_name
            (bytes_of (ReserveTicket.encode X r))
  unfolding SpendTicket.digest ReserveTicket.digest
  spend_digest-ne_reserve t r d d' h f f' e e' =
      let (b, p, q) = >>=-ok (SpendTicket.encode X t) _ e in
      let (b', p', q') = >>=-ok (ReserveTicket.encode X r) _ e' in
      let (c, w, ec, ew, eb) = spend_parts t b p in
      let (c', w', ec', ew', eb') = reserve_parts r b' p' in
      elim (digest_binds X d d' pot_domain_name pot_domain_name b b' h f f' q q') [
        | inr clash ↦ inr (rw (p, p') clash)
        | inl (same, domain) ↦
            let words =
              concat_cancel 32 (struct_words spend_type c w t.cumulative t.deadline)
                (struct_words reserve_type c' w' r.max_amount r.deadline)
                (struct_length spend_type c w t.cumulative t.deadline
                  (length-word_address X t.client c ec)
                  (length-word_address X t.worker_payout w ew))
                (struct_length reserve_type c' w' r.max_amount r.deadline
                  (length-word_address X r.client c' ec')
                  (length-word_address X r.worker_payout w' ew'))
                refl (sym eb ∙ same ∙ eb') in
            inl (types_differ, cc)
      ]
