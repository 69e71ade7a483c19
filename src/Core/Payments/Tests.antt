-- ===== src/Core/Payments/Tests.antt =====
-- Runs and examples of payments.rs.
use rootmode.Prelude.{ℕ, ◌≡◌, ◌⊎◌, refl, ◌++◌, replicate, arith}
use rootmode.Prelude.Bytes.{be_bytes, be_value}
use rootmode.Prelude.Text.{Text, text, utf8, strip_0x}
use rootmode.Prelude.Result.{ok}
use rootmode.Core.Fixtures.{toy}
use rootmode.Core.Payments.{
  Domain, pot_domain_name, word_u64, word_address, separator_named, digest_of_named,
}
use rootmode.Core.Payments.SpendTicket
use rootmode.Core.Payments.SpendTicket.{SpendTicket}
use rootmode.Core.Payments.ReserveTicket
use rootmode.Core.Payments.ReserveTicket.{ReserveTicket}
use rootmode.Core.Payments.Injective.{Clash, DigestClash, OneDomain}
use rootmode.Core.Payments.Injective.Tickets.{
  SameSpend, bytes_of, spend_type, reserve_type, spend_digest_binds, spend_digest-ne_reserve,
}

abbrev address : ℕ → Text
address n = text "0x" ++ replicate 20 n

abbrev base : Domain
base = record { chain_id = 8453; verifying_contract = address 1 }

abbrev ticket : SpendTicket
ticket = record { client = address 65; worker_payout = address 66; cumulative = 500; deadline = 77 }

abbrev lock : ReserveTicket
lock = record { client = address 65; worker_payout = address 66; max_amount = 900; deadline = 77 }

spend-digest : SpendTicket.digest toy ticket base ≡ ok (word_u64 77)
unfolding SpendTicket.digest SpendTicket.encode digest_of_named separator_named word_address
    strip_0x word_u64 utf8 be_bytes be_value
spend-digest = refl

reserve-digest : ReserveTicket.digest toy lock base ≡ ok (word_u64 77)
unfolding ReserveTicket.digest ReserveTicket.encode digest_of_named separator_named word_address
    strip_0x word_u64 utf8 be_bytes be_value
reserve-digest = refl

spend_digest_binds_example :
    (SameSpend toy ticket ticket × OneDomain toy base base)
    ⊎ DigestClash toy base pot_domain_name
        (bytes_of toy (SpendTicket.encode toy ticket))
        base
        pot_domain_name
        (bytes_of toy (SpendTicket.encode toy ticket))
spend_digest_binds_example =
    spend_digest_binds toy ticket ticket base base (word_u64 77) (omega arith) (omega arith)
      spend-digest spend-digest

spend_digest-ne_reserve_example :
    Clash toy spend_type reserve_type
    ⊎ DigestClash toy base pot_domain_name
        (bytes_of toy (SpendTicket.encode toy ticket))
        base
        pot_domain_name
        (bytes_of toy (ReserveTicket.encode toy lock))
spend_digest-ne_reserve_example =
    spend_digest-ne_reserve toy ticket lock base base (word_u64 77) (omega arith) (omega arith)
      spend-digest reserve-digest
