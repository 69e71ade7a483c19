-- ===== src/Prelude/Result.antt =====
-- `Result<A, E>`, with `?` as the bind of a do block.
use mathlib.Core.Path.{◌≡◌, refl}
use mathlib.Core.Bool.{Bool, true, false}
use mathlib.Core.Option.{Option, none, some}

pub data Result {ℓ κ} (E : Type ℓ) (A : Type κ) : Type (ℓ ⊔ κ) where
  ok : A → Result E A
  err : E → Result E A

-- `result?`, with the rest of the function as the second argument.
infixl 5 ◌>>=◌ ◌>>◌
abbrev pub ◌>>=◌ {ℓ κ μ} :
    {A : Type ℓ} {B : Type κ} {E : Type μ} → Result E A → (A → Result E B) → Result E B
err why >>= rest = err why
ok value >>= rest = rest value

-- `check?;`
abbrev pub ◌>>◌ {ℓ κ} : {E : Type ℓ} {B : Type κ} → Result E (Unit {0}) → Result E B → Result E B
err why >> rest = err why
ok unit >> rest = rest

-- `if test { return Err(e) }`
abbrev pub fail_if {ℓ} : {E : Type ℓ} → Bool → E → Result E (Unit {0})
fail_if true e = err e
fail_if false e = ok tt

-- `ok_or_else`
abbrev pub ok_or {ℓ κ} : {E : Type ℓ} {A : Type κ} → Option A → E → Result E A
ok_or none e = err e
ok_or (some a) e = ok a

-- `map_err`
abbrev pub map_err {ℓ κ μ} :
    {E : Type ℓ} {D : Type κ} {A : Type μ} → (E → D) → Result E A → Result D A
map_err f (ok a) = ok a
map_err f (err e) = err (f e)

-- Where the whole succeeds, so does its first part, and the rest on that part's value.
pub >>=-ok {ℓ κ μ} :
    {E : Type ℓ} {B : Type κ} {A : Type μ} (r : Result E A) (rest : A → Result E B) {out : B}
    → (r >>= rest) ≡ ok out
    → (value : A) × (r ≡ ok value) × (rest value ≡ ok out)
>>=-ok (err why) rest e = cc
>>=-ok (ok value) rest e = (value, refl, e)

pub ok_inj {ℓ κ} : {E : Type ℓ} {A : Type κ} {a b : A} → ◌≡◌ {A = Result E A} (ok a) (ok b) → a ≡ b
ok_inj e = cc

pub >>-ok {ℓ κ} :
    {E : Type ℓ} {B : Type κ} (r : Result E (Unit {0})) (rest : Result E B) {out : B}
    → (r >> rest) ≡ ok out
    → (r ≡ ok tt) × (rest ≡ ok out)
>>-ok (err why) rest e = cc
>>-ok (ok tt) rest e = (refl, e)

pub fail_if-ok {ℓ} : {E : Type ℓ} (b : Bool) (e : E) → fail_if b e ≡ ok tt → b ≡ false
fail_if-ok true e h = cc
fail_if-ok false e h = refl
