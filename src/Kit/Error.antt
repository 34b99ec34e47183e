-- ===== src/Kit/Error.antt =====
-- Go's `error` as the program uses it: a `*ValidationError`, an error that only has a text, and
-- `fmt.Errorf("prefix: %w", err)`. A function that can fail returns a `Result`.
use Prim.Native.String.{◌++◌}
use adk_a2ui_go.Common.{◌↔◌, String, ◌≡◌, refl, Option, none, some, List, ◌⊎◌, inl, inr}
use adk_a2ui_go.Kit.Problem.{Problem, validation_text}

pub data Error : Type 0 where
  validation : List Problem → Error
  failure : String → Error
  wrapped : String → Error → Error

-- `err.Error()`
unfoldable pub error_text : Error → String
unfolding validation_text
error_text (validation ps) = validation_text ps
error_text (failure s) = s
error_text (wrapped prefix e) = prefix ++ error_text e

-- `errors.As(err, &ve)` for a `*ValidationError`
unfoldable pub as_validation : Error → Option (List Problem)
as_validation (validation ps) = some ps
as_validation (failure s) = none
as_validation (wrapped prefix e) = as_validation e

-- A value, or Go's error beside the zero value.
pub data Result {ℓ} (Answer : Type ℓ) : Type ℓ where
  err : Error → Result Answer
  ok : Answer → Result Answer

-- `if err != nil { return err }`, then the rest of the function.
infixl 5 ◌>>=◌
abbrev pub ◌>>=◌ {ℓ κ} : {X : Type ℓ} {Y : Type κ} → Result X → (X → Result Y) → Result Y
err stop >>= rest = err stop
ok x >>= rest = rest x

pub Result-cases {ℓ} :
    {X : Type ℓ} (r : Result X) → ((x : X) × (r ≡ ok x)) ⊎ ((e : Error) × (r ≡ err e))
Result-cases (err e) = inr (e, refl)
Result-cases (ok x) = inl (x, refl)

-- Where both steps succeed.
pub >>=-eq-ok {ℓ κ} :
    {X : Type ℓ} {Y : Type κ} (first : Result X) (rest : X → Result Y) {y : Y}
    → (first >>= rest) ≡ ok y
    → (x : X) × (first ≡ ok x) × (rest x ≡ ok y)
>>=-eq-ok (err stop) rest both = cc
>>=-eq-ok (ok x) rest both = (x, refl, both)

pub >>=-ok_iff :
    {X Y : Type 0} (first : Result X) (rest : X → Result Y) (y : Y) (P : X → Type 0)
    → ((x : X) → (rest x ≡ ok y) ↔ P x)
    → ((first >>= rest) ≡ ok y) ↔ ((x : X) × (first ≡ ok x) × P x)
>>=-ok_iff first rest y P iff = (
  λ h. (let (x, e, k) = >>=-eq-ok first rest h in (x, e, (iff x).0 k)),
  λ (x, e, p). rw e ((iff x).1 p),
)
