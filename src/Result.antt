-- ===== src/Result.antt =====
-- util.py: `TapeoutError`, `ensure`; team_auth.py: `TeamError`, `require`.
-- A function that may raise returns a `Result`. `os_error`, `key_error`, `type_error` and `attribute_error` are
-- Python's own exceptions, which the source nowhere raises on purpose;
-- `out_of_fuel` is no outcome of the program: a loop of the model came to the end of its fuel.
use open_tapeout.Prelude.{
  ℕ, String, ◌≡◌, ◌≢◌, refl, Bool, true, false, ◌⊎◌, inl, inr, Option, none, some, ap,
}

pub data Failure : Type 0 where
  tapeout : String → Failure
  team : String → String → ℕ → Failure
  os_error : String → Failure
  key_error type_error attribute_error out_of_fuel : Failure

pub data Result {ℓ} (A : Type ℓ) : Type ℓ where
  ok : A → Result A
  err : Failure → Result A

abbrev pub ensure : Bool → String → Result (Unit {0})
ensure true message = ok tt
ensure false message = err (tapeout message)

abbrev pub require : Bool → String → String → ℕ → Result (Unit {0})
require true code message status = ok tt
require false code message status = err (team code message status)

infixl 5 ◌>>=◌ ◌>>◌
-- What follows a call that raised is skipped.
abbrev pub ◌>>=◌ {ℓ ℓ'} : {A : Type ℓ} {B : Type ℓ'} → Result A → (A → Result B) → Result B
err failure >>= next = err failure
ok a >>= next = next a

abbrev pub ◌>>◌ {ℓ} : {B : Type ℓ} → Result (Unit {0}) → Result B → Result B
check >> rest = check >>= λ u. rest

-- Inversion of a block that succeeded.
pub >>=-eq-ok {ℓ ℓ'} :
    {A : Type ℓ} {B : Type ℓ'} (first : Result A) (next : A → Result B) {b : B}
    → (first >>= next) ≡ ok b
    → (a : A) × (first ≡ ok a) × (next a ≡ ok b)
>>=-eq-ok (err failure) next h = cc
>>=-eq-ok (ok a) next h = (a, refl, h)

pub ensure-eq-ok {ℓ} :
    {B : Type ℓ} (t : Bool) (message : String) (k : Result B) {b : B}
    → (ensure t message >> k) ≡ ok b
    → (t ≡ true) × (k ≡ ok b)
ensure-eq-ok true message k h = (refl, h)
ensure-eq-ok false message k h = cc

pub require-eq-ok {ℓ} :
    {B : Type ℓ} (t : Bool) (code message : String) (status : ℕ) (k : Result B) {b : B}
    → (require t code message status >> k) ≡ ok b
    → (t ≡ true) × (k ≡ ok b)
require-eq-ok true code message status k h = (refl, h)
require-eq-ok false code message status k h = cc

pub ok-injective {ℓ} : {A : Type ℓ} {a b : A} → ok a ≡ ok b → a ≡ b
ok-injective h = cc

pub true_of_ensure :
    (t : Bool) (message : String) {u : Unit {0}} → ensure t message ≡ ok u → t ≡ true
true_of_ensure true message h = refl
true_of_ensure false message h = cc

pub Result-cases {ℓ} :
    {A : Type ℓ} (r : Result A) → ((a : A) × (r ≡ ok a)) ⊎ ((e : Failure) × (r ≡ err e))
Result-cases (ok a) = inl (a, refl)
Result-cases (err e) = inr (e, refl)

-- `None` is the failure with this message.
unfoldable pub known {ℓ} : {A : Type ℓ} → Option A → String → Result A
known none message = err (tapeout message)
known (some a) message = ok a

pub known-eq-ok {ℓ} :
    {A : Type ℓ} (o : Option A) (message : String) {a : A} → known o message ≡ ok a → o ≡ some a
unfolding known
known-eq-ok none message h = cc
known-eq-ok (some a) message h = ap some (ok-injective h)

-- A step that succeeds in front of the rest of a block.
pub >>=-ok {ℓ ℓ'} :
    {A : Type ℓ} {B : Type ℓ'} {first : Result A} {a : A} (next : A → Result B)
    → first ≡ ok a
    → (first >>= next) ≡ next a
>>=-ok next e = ap (λ r. r >>= next) e

-- What follows a step that fails does not matter.
pub >>=-err {ℓ ℓ'} :
    {A : Type ℓ} {B : Type ℓ'} {first : Result A} {e : Failure} (next : A → Result B)
    → first ≡ err e
    → (first >>= next) ≡ err e
>>=-err next h = ap (λ r. r >>= next) h

-- A block does not fail in a way in which none of its steps fails.
pub >>=-neq-err {ℓ ℓ'} :
    {A : Type ℓ} {B : Type ℓ'} {e : Failure} (first : Result A) (next : A → Result B)
    → first ≢ err e
    → ((a : A) → next a ≢ err e)
    → (first >>= next) ≢ err e
>>=-neq-err (err failure) next f n h = f (cc)
>>=-neq-err (ok a) next f n h = n a h

pub ensure-true {ℓ} :
    {B : Type ℓ} {t : Bool} (message : String) (k : Result B)
    → t ≡ true
    → (ensure t message >> k) ≡ k
ensure-true message k e = ap (λ b. ensure b message >> k) e

pub true_of_require :
    (t : Bool) (code message : String) (status : ℕ) {u : Unit {0}}
    → require t code message status ≡ ok u
    → t ≡ true
true_of_require true code message status h = refl
true_of_require false code message status h = cc
