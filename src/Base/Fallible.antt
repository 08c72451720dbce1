-- ===== src/Base/Fallible.antt =====
-- `RusticResult<T>` of crates/core/src/error.rs. Of an error the model keeps its kind.
use mathlib.Core.Path.{◌≡◌, refl, subst}
use mathlib.Core.Bool.{Bool, true, false}

pub data ErrorKind : Type 0 where
  append_only backend configuration cryptography external_command internal invalid_input : ErrorKind
  input_output key missing_input other credentials repository unsupported : ErrorKind
  verification vfs : ErrorKind

pub data Result {ℓ} (T : Type ℓ) : Type ℓ where
  err : ErrorKind → Result T
  ok : T → Result T

-- `if failed { return Err(..) }`
abbrev pub fail_if : Bool → ErrorKind → Result (Unit {0})
fail_if true kind = err kind
fail_if false kind = ok tt

module _ {ℓ κ} {T : Type ℓ} {U : Type κ} where
  infixl 5 ◌>>=◌
  -- `?`: an error is returned at once.
  abbrev pub ◌>>=◌ : Result T → (T → Result U) → Result U
  err kind >>= next = err kind
  ok value >>= next = next value

  -- If the whole returns a value, so do its two parts.
  pub >>=-eq-ok :
      (first : Result T) (next : T → Result U) {u : U}
      → (first >>= next) ≡ ok u
      → (t : T) × (first ≡ ok t) × (next t ≡ ok u)
  >>=-eq-ok (err kind) next h = cc
  >>=-eq-ok (ok value) next h = (value, refl, h)

infixl 5 ◌>>◌
abbrev pub ◌>>◌ {ℓ} : {U : Type ℓ} → Result (Unit {0}) → Result U → Result U
first >> second = first >>= λ done. second

pub fail_if-eq-ok : (b : Bool) (e : ErrorKind) {u : Unit {0}} → fail_if b e ≡ ok u → b ≡ false
fail_if-eq-ok true e h = cc
fail_if-eq-ok false e h = refl

pub ok-injective {ℓ} : {A : Type ℓ} {a b : A} → ok a ≡ ok b → a ≡ b
ok-injective {A = A} {a} {b} e =
    subst (λ (r : Result A). elim r [ ok c ↦ a ≡ c | err k ↦ a ≡ a ]) e refl
