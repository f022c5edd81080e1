-- ===== src/Error.antt =====
-- crates/shapeport-core/src/error.rs: `Error`, its constructors and `Result`. An error is its kind
-- and its machine code; the message for people is not modelled, since no code branches on it.
pub mod Kind
use Kind.{ErrorKind}
use shapeport.Prelude.{String, ◌≡◌, refl, ◌⊎◌, inl, inr}

pub record Error : Type 0 where
  pub kind : ErrorKind
  pub code : String

abbrev pub usage : String → Error
usage code = record { kind = ErrorKind.usage; code = code }

abbrev pub parse : String → Error
parse code = record { kind = ErrorKind.parse; code = code }

abbrev pub schema : String → Error
schema code = record { kind = ErrorKind.schema; code = code }

abbrev pub plan : String → Error
plan code = record { kind = ErrorKind.plan_validation; code = code }

abbrev pub transform : String → Error
transform code = record { kind = ErrorKind.transform; code = code }

abbrev pub target : String → Error
target code = record { kind = ErrorKind.target_validation; code = code }

abbrev pub ambiguity : Error
ambiguity = record { kind = ErrorKind.ambiguity; code = "ambiguous_mapping" }

abbrev pub security : String → Error
security code = record { kind = ErrorKind.security; code = code }

abbrev pub io_err : Error
io_err = record { kind = ErrorKind.io; code = "io_error" }

abbrev pub limit : String → Error
limit code = record { kind = ErrorKind.resource_limit; code = code }

abbrev pub internal : Error
internal = record { kind = ErrorKind.internal; code = "internal" }

pub data Result {ℓ} (T : Type ℓ) : Type ℓ where
  err : Error → Result T
  ok : T → Result T

-- The `?` operator: an error ends the chain.
infixl 5 ◌>>=◌ ◌>>◌
abbrev pub ◌>>=◌ {ℓ κ} : {T : Type ℓ} {S : Type κ} → Result T → (T → Result S) → Result S
err failure >>= next = err failure
ok value >>= next = next value

abbrev pub ◌>>◌ {κ} : {S : Type κ} → Result (Unit {0}) → Result S → Result S
check >> next = check >>= λ done. next

-- A chain that succeeds has steps that succeed.
pub >>=-eq-ok {ℓ κ} :
    {T : Type ℓ} {S : Type κ} (step : Result T) (next : T → Result S) {final : S}
    → (step >>= next) ≡ ok final
    → (value : T) × (step ≡ ok value) × (next value ≡ ok final)
>>=-eq-ok (err failure) next h = cc
>>=-eq-ok (ok value) next h = (value, refl, h)

pub ok_inj {ℓ} : {T : Type ℓ} {x y : T} → ok x ≡ ok y → x ≡ y
ok_inj h = cc h

pub err_ok {ℓ} : {T : Type ℓ} {e : Error} {x : T} → err e ≡ ok x → ⊥
err_ok h = cc h

-- What holds of the value, if there is one.
abbrev pub IfOk {ℓ κ} : {A : Type ℓ} → (A → Type κ) → Result A → Type κ
IfOk P (ok a) = P a
IfOk P (err e) = Unit

pub IfOk-bind {ℓ κ ℓ' κ'} :
    {A : Type ℓ} {B : Type κ} (P : A → Type ℓ') (Q : B → Type κ') (m : Result A) (f : A → Result B)
    → IfOk P m
    → ((a : A) → P a → IfOk Q (f a))
    → IfOk Q (m >>= f)
IfOk-bind P Q (ok a) f h k = k a h
IfOk-bind P Q (err e) f h k = tt

pub IfOk-all {ℓ κ κ'} :
    {A : Type ℓ} {B : Type κ} (Q : B → Type κ') (m : Result A) (f : A → Result B)
    → ((a : A) → IfOk Q (f a))
    → IfOk Q (m >>= f)
IfOk-all Q (ok a) f k = k a
IfOk-all Q (err e) f k = tt

pub Result-cases {ℓ} :
    {T : Type ℓ} (result : Result T)
    → ((value : T) × (result ≡ ok value)) ⊎ ((failure : Error) × (result ≡ err failure))
Result-cases (err failure) = inr (failure, refl)
Result-cases (ok value) = inl (value, refl)

-- A failed step failed itself, or what follows it did.
pub >>=-eq-err {ℓ κ} :
    {A : Type ℓ} {B : Type κ} (m : Result A) (f : A → Result B) {e : Error}
    → (m >>= f) ≡ err e
    → (m ≡ err e) ⊎ ((a : A) × (m ≡ ok a) × (f a ≡ err e))
>>=-eq-err (ok a) f h = inr (a, refl, h)
>>=-eq-err (err e) f h = inl (cc h)
