-- ===== src/Iso9660/Run.antt =====
-- The ways in which the code of src/server/iso9660 ends: with a value, with one of the exceptions of
-- iso9660.h, with an access beyond the memory that it was given, or not within the fuel.
use genode_world.Prelude.{ℕ, ◌+◌, leb, if◌then◌else◌, List, Option, none, some, get_elem?, take}
use genode_world.Prelude.{drop, length, ◌≡◌, ◌≢◌, refl}

pub data Exception : Type 0 where
  io_error non_data_disc file_not_found : Exception

pub data Run {ℓ} (A : Type ℓ) : Type ℓ where
  done : A → Run A
  throw : Exception → Run A
  beyond : Run A
  unfinished : Run A

infixl 5 ◌>>=◌
abbrev pub ◌>>=◌ {ℓ κ} : {A : Type ℓ} {B : Type κ} → Run A → (A → Run B) → Run B
done a >>= f = f a
throw e >>= f = throw e
beyond >>= f = beyond
unfinished >>= f = unfinished

abbrev pub read : Option ℕ → Run ℕ
read none = beyond
read (some b) = done b

-- `value<uint8_t>`
abbrev pub byte : List ℕ → ℕ → Run ℕ
byte mem i = read (get_elem? mem i)

-- `memcpy` from memory
unfoldable pub slice : List ℕ → ℕ → ℕ → Run (List ℕ)
slice mem at n = if leb (at + n) (length mem) then done (take n (drop at mem)) else beyond

-- A composition ends within the fuel if both parts do.
pub bind_ends {ℓ κ} :
    {A : Type ℓ} {B : Type κ} (m : Run A) (f : A → Run B)
    → m ≢ unfinished
    → ((a : A) → m ≡ done a → f a ≢ unfinished)
    → (m >>= f) ≢ unfinished
bind_ends (done a) f hm hf = hf a refl
bind_ends (throw e) f hm hf = λ h. cc
bind_ends beyond f hm hf = λ h. cc
bind_ends unfinished f hm hf = λ h. hm refl

pub read_ends : (o : Option ℕ) → read o ≢ unfinished
read_ends none = λ h. cc
read_ends (some b) = λ h. cc

pub read-done : (o : Option ℕ) {b : ℕ} → read o ≡ done b → o ≡ some b
read-done none h = cc
read-done (some a) h = cc

-- A composition that gives a value is one of two parts that do.
pub bind-done {ℓ κ} :
    {A : Type ℓ} {B : Type κ} (m : Run A) (f : A → Run B) {b : B}
    → (m >>= f) ≡ done b
    → (a : A) × (m ≡ done a) × (f a ≡ done b)
bind-done (done a) f h = (a, refl, h)
bind-done (throw e) f h = cc
bind-done beyond f h = cc
bind-done unfinished f h = cc

-- The run is over within the fuel, and a value that it gives satisfies `P`.
abbrev pub Gives : {A : Type 0} → Run A → (A → Type 0) → Type 0
Gives (done a) P = P a
Gives (throw e) P = Unit
Gives beyond P = Unit
Gives unfinished P = ⊥

pub Gives-ends : {A : Type 0} (m : Run A) → m ≢ unfinished → Gives m (λ a. m ≡ done a)
Gives-ends (done a) h = refl
Gives-ends (throw e) h = tt
Gives-ends beyond h = tt
Gives-ends unfinished h = absurd (h refl)

pub ends-Gives : {A : Type 0} (m : Run A) (P : A → Type 0) → Gives m P → m ≢ unfinished
ends-Gives (done a) P h = λ e. cc
ends-Gives (throw x) P h = λ e. cc
ends-Gives beyond P h = λ e. cc
ends-Gives unfinished P h = absurd h

pub Gives-bind :
    {A B : Type 0} (m : Run A) (f : A → Run B) (Q : A → Type 0) (P : B → Type 0)
    → Gives m Q
    → ((a : A) → Q a → Gives (f a) P)
    → Gives (m >>= f) P
Gives-bind (done a) f Q P hm hf = hf a hm
Gives-bind (throw e) f Q P hm hf = tt
Gives-bind beyond f Q P hm hf = tt
Gives-bind unfinished f Q P hm hf = absurd hm
