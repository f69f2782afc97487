-- ===== src/Results.antt =====
-- `Result` as a monad, for code that leaves by `?`.
pub mod Perm
use zk_ress.Base.{◌≡◌, refl, ◌⊎◌, inl, inr, Option, none, some, List, [], ◌∷◌, Bool, true, false}
use zk_ress.Env.{Result, ok, err}

infixl 5 ◌>>=◌ ◌>>◌
abbrev pub ◌>>=◌ {ℓ κ μ} :
    {A : Type ℓ} {B : Type κ} {E : Type μ} → Result A E → (A → Result B E) → Result B E
ok a >>= f = f a
err e >>= f = err e

abbrev pub ◌>>◌ {ℓ μ} : {B : Type ℓ} {E : Type μ} → Result (Unit {0}) E → Result B E → Result B E
m >> k = m >>= λ _. k

-- `Result::map_err`, or the `From` of a `?`.
abbrev pub map_err {ℓ κ μ} :
    {A : Type ℓ} {E : Type κ} {F : Type μ} → (E → F) → Result A E → Result A F
map_err f (ok a) = ok a
map_err f (err e) = err (f e)

-- `Option::ok_or`
abbrev pub ok_or {ℓ κ} : {A : Type ℓ} {E : Type κ} → Option A → E → Result A E
ok_or none e = err e
ok_or (some a) e = ok a

-- A check that gives an error or passes.
abbrev pub passes {κ} : {E : Type κ} → Option E → Result (Unit {0}) E
passes none = ok tt
passes (some e) = err e

-- What is left of a check.
abbrev pub error_of {ℓ κ} : {A : Type ℓ} {E : Type κ} → Result A E → Option E
error_of (ok a) = none
error_of (err e) = some e

abbrev pub is_ok {ℓ κ} : {A : Type ℓ} {E : Type κ} → Result A E → Bool
is_ok (ok a) = true
is_ok (err e) = false

-- A loop whose body may leave with an error.
abbrev pub try_fold {ℓ κ μ} :
    {A : Type ℓ} {S : Type κ} {E : Type μ} → (A → S → Result S E) → List A → S → Result S E
try_fold step [] s = ok s
try_fold step (a ∷ rest) s = step a s >>= try_fold step rest

-- A chain that succeeds has succeeded at its first step.
pub >>=-eq-ok {ℓ κ μ} :
    {A : Type ℓ} {B : Type κ} {E : Type μ} (first : Result A E) (next : A → Result B E) {last : B}
    → (first >>= next) ≡ ok last
    → (a : A) × (first ≡ ok a) × (next a ≡ ok last)
>>=-eq-ok (ok a) next h = (a, refl, h)
>>=-eq-ok (err e) next h = cc

pub map_err-eq-ok {ℓ κ μ} :
    {A : Type ℓ} {E : Type κ} {F : Type μ} (f : E → F) (r : Result A E) {a : A}
    → map_err f r ≡ ok a
    → r ≡ ok a
map_err-eq-ok f (ok a) h = cc
map_err-eq-ok f (err e) h = cc

pub passes-eq-ok {κ} :
    {E : Type κ} (check : Option E) {u : Unit {0}} → passes check ≡ ok u → check ≡ none
passes-eq-ok none h = refl
passes-eq-ok (some e) h = cc

pub Result-cases {ℓ κ} :
    {A : Type ℓ} {E : Type κ} (r : Result A E) → ((a : A) × (r ≡ ok a)) ⊎ ((e : E) × (r ≡ err e))
Result-cases (ok a) = inl (a, refl)
Result-cases (err e) = inr (e, refl)
