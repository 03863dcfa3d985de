-- ===== src/Base/Errors.antt =====
-- Python calls that may raise, as values: `Exception` has the classes that the code raises.
use mathlib.Core.Path.{◌≡◌, refl, ap}
use mathlib.Core.Logic.{◌⊎◌, inl, inr}
use mathlib.Core.Bool.{Bool, true, false}
use mathlib.Core.List.{List, [], ◌∷◌, map}
use time_sensitive_packet.Base.Lists.{AllOf, length}
use Prim.Native.Nat.{suc}

pub data Exception : Type 0 where
  value_error overflow_error type_error zero_division os_error key_error index_error struct_error
        assertion_error :
      Exception

pub data Result {ℓ} (A : Type ℓ) : Type ℓ where
  err : (raised : Exception) → Result A
  ok : (value : A) → Result A

infixl 5 ◌>>=◌ ◌>>◌
abbrev pub ◌>>=◌ {ℓ κ} : {A : Type ℓ} {B : Type κ} → Result A → (A → Result B) → Result B
err raised >>= next = err raised
ok value >>= next = next value

abbrev pub ◌>>◌ {ℓ} : {A : Type ℓ} (check : Result (Unit {0})) (next : Result A) → Result A
check >> next = check >>= λ done. next

-- `if test: raise x`
abbrev pub raise_if : Bool → Exception → Result (Unit {0})
raise_if true x = err x
raise_if false x = ok tt

-- `[f(x) for x in xs]` where `f` may raise.
abbrev pub map_result {ℓ κ} : {A : Type ℓ} {B : Type κ} → (A → Result B) → List A → Result (List B)
map_result f [] = ok []
map_result f (x ∷ xs) = do y ← f x; ys ← map_result f xs; ok (y ∷ ys)

-- Inversion of a successful bind.
pub >>=-eq-ok {ℓ κ} :
    {A : Type ℓ} {B : Type κ} (first : Result A) (next : A → Result B) {result : B}
    → (first >>= next) ≡ ok result
    → (value : A) × (first ≡ ok value) × (next value ≡ ok result)
>>=-eq-ok (err raised) next h = cc
>>=-eq-ok (ok value) next h = (value, refl, h)

pub ok-injective {ℓ} : {A : Type ℓ} {a b : A} → ok a ≡ ok b → a ≡ b
ok-injective h = cc

pub Result-cases {ℓ} :
    {A : Type ℓ} (r : Result A) → ((a : A) × (r ≡ ok a)) ⊎ ((x : Exception) × (r ≡ err x))
Result-cases (ok a) = inl (a, refl)
Result-cases (err x) = inr (x, refl)

-- What holds of the value, if there is one.
abbrev pub OnOk {ℓ κ} : {A : Type ℓ} → (A → Type κ) → Result A → Type κ
OnOk P (err raised) = Unit
OnOk P (ok value) = P value

pub OnOk-bind {ℓ κ μ ν} :
    {A : Type ℓ} {B : Type κ} (Q : A → Type μ) (P : B → Type ν) (first : Result A)
    (next : A → Result B)
    → OnOk Q first
    → ((value : A) → Q value → OnOk P (next value))
    → OnOk P (first >>= next)
OnOk-bind Q P (err raised) next q h = tt
OnOk-bind Q P (ok value) next q h = h value q

pub OnOk-raise_if {ℓ κ} :
    {A : Type ℓ} (P : A → Type κ) (test : Bool) (x : Exception) (next : Result A)
    → (test ≡ false → OnOk P next)
    → OnOk P (raise_if test x >> next)
OnOk-raise_if P true x next h = tt
OnOk-raise_if P false x next h = h refl

pub OnOk-imp {ℓ κ μ} :
    {A : Type ℓ} (P : A → Type κ) (Q : A → Type μ) (result : Result A)
    → ((value : A) → P value → Q value)
    → OnOk P result
    → OnOk Q result
OnOk-imp P Q (err raised) imp h = tt
OnOk-imp P Q (ok value) imp h = imp value h

pub OnOk-self {ℓ} : {A : Type ℓ} (result : Result A) → OnOk (λ value. result ≡ ok value) result
OnOk-self (err raised) = tt
OnOk-self (ok value) = refl

-- There is a value, with the property.
abbrev pub Gives {ℓ κ} : {A : Type ℓ} (P : A → Type κ) → Result A → Type (ℓ ⊔ κ)
Gives {A = A} P result = (value : A) × (result ≡ ok value) × P value

pub Gives-bind {ℓ κ μ ν} :
    {A : Type ℓ} {B : Type κ} (Q : A → Type μ) (P : B → Type ν) (first : Result A)
    (next : A → Result B)
    → Gives Q first
    → ((value : A) → Q value → Gives P (next value))
    → Gives P (first >>= next)
Gives-bind Q P first next (value, e, q) h = let (result, g, p) = h value q in (result, rw e g, p)

pub OnOk-any {ℓ} : {A : Type ℓ} (result : Result A) → OnOk (λ value. Unit {0}) result
OnOk-any (err raised) = tt
OnOk-any (ok value) = tt

-- A call that gets each value back.
pub map_result-map {ℓ κ μ} :
    {A : Type ℓ} {T : Type κ} {B : Type μ} (read : T → Result B) (write : A → T) (value : A → B)
    (xs : List A)
    → ((a : A) → read (write a) ≡ ok (value a))
    → map_result read (map write xs) ≡ ok (map value xs)
map_result-map read write value [] h = refl
map_result-map read write value (x ∷ xs) h = rw (h x, map_result-map read write value xs h) refl

-- A call that returns for each value.
pub map_result-Gives {ℓ κ μ} :
    {A : Type ℓ} {B : Type κ} (P : A → Type μ) (f : A → Result B) (xs : List A)
    → ((a : A) → P a → Gives (λ b. Unit {0}) (f a))
    → AllOf P xs
    → Gives (λ bs. length bs ≡ length xs) (map_result f xs)
map_result-Gives P f [] h ps = ([], refl, refl)
map_result-Gives P f (x ∷ xs) h (p, ps) =
    let (b, e, t) = h x p in
    let (bs, g, n) = map_result-Gives P f xs h ps in (b ∷ bs, rw (e, g) refl, ap suc n)
