-- ===== src/Prelude/Outcome.antt =====
-- How a Rust call can end, and calls on a mutable receiver, which keep what was written to it before
-- they failed.

-- `ok` and `err` are the constructors of Rust's `Result`. `panicked` is a panic, `pending` a future
-- that waits for ever, and `spent` is no outcome of the program: a loop of the model ran out of fuel.
pub data Outcome {ℓ κ} (E : Type ℓ) (A : Type κ) : Type (ℓ ⊔ κ) where
  ok : A → Outcome E A
  err : E → Outcome E A
  panicked : Outcome E A
  pending : Outcome E A
  spent : Outcome E A

-- `Result::map_err`.
abbrev pub map_err {ℓ κ ι} :
    {E : Type ℓ} {D : Type κ} {A : Type ι} → (E → D) → Outcome E A → Outcome D A
map_err f (ok a) = ok a
map_err f (err e) = err (f e)
map_err f panicked = panicked
map_err f pending = pending
map_err f spent = spent

abbrev pub map_ok {κ ι μ} :
    {E : Type κ} {A : Type ι} {B : Type μ} → (A → B) → Outcome E A → Outcome E B
map_ok f (ok a) = ok (f a)
map_ok f (err e) = err e
map_ok f panicked = panicked
map_ok f pending = pending
map_ok f spent = spent

-- A call on a mutable receiver: its outcome, and the receiver as the call leaves it.
abbrev pub Call {ℓ κ ι} : Type ℓ → Type κ → Type ι → Type (ℓ ⊔ κ ⊔ ι)
Call S E A = S → Outcome E A × S

abbrev pub pure {ℓ κ ι} : {S : Type ℓ} {E : Type κ} {A : Type ι} → A → Call S E A
pure a s = (ok a, s)

abbrev pub lift {ℓ κ ι} : {S : Type ℓ} {E : Type κ} {A : Type ι} → Outcome E A → Call S E A
lift r s = (r, s)

abbrev pub call_map_err {ℓ κ ι μ} :
    {S : Type ℓ} {E : Type κ} {D : Type ι} {A : Type μ} → (E → D) → Call S E A → Call S D A
call_map_err f m s = let (r, s') = m s in (map_err f r, s')

-- What follows a call whose outcome is known: nothing, unless it is `ok`. This is Rust's `?`.
abbrev pub after {ℓ κ ι μ} :
    {S : Type ℓ} {E : Type κ} {A : Type ι} {B : Type μ}
    → Outcome E A
    → (A → Call S E B)
    → Call S E B
after (ok a) f s = f a s
after (err e) f s = (err e, s)
after panicked f s = (panicked, s)
after pending f s = (pending, s)
after spent f s = (spent, s)

infixl 5 ◌>>=◌ ◌>>◌
abbrev pub ◌>>=◌ {ℓ κ ι μ} :
    {S : Type ℓ} {E : Type κ} {A : Type ι} {B : Type μ} → Call S E A → (A → Call S E B) → Call S E B
◌>>=◌ m f s = let (r, s') = m s in after r f s'

abbrev pub ◌>>◌ {ℓ κ ι μ} :
    {S : Type ℓ} {E : Type κ} {A : Type ι} {B : Type μ} → Call S E A → Call S E B → Call S E B
m >> n = m >>= λ _. n
