-- ===== src/Common/Effects.antt =====
-- Asynchronous code that may throw, as functions on the state `W` of what it calls.
use Prim.Native.String.{String}
use mathlib.Core.Path.{◌≡◌, refl, ◌∙◌, subst}

-- What an awaited call gives: its value, or the message of what it threw.
pub data Try {ℓ} (A : Type ℓ) : Type ℓ where
  value : A → Try A
  thrown : String → Try A

-- What was done before a throw stays done, so the state comes back beside the error too.
abbrev pub Effect {ℓ} : Type ℓ → Type ℓ → Type ℓ
Effect W A = W → Try A × W

module _ {ℓ} {W A : Type ℓ} where
  abbrev pub pure : A → Effect W A
  pure a w = (value a, w)

  abbrev pub throw : String → Effect W A
  throw e w = (thrown e, w)

module _ {ℓ} {W A B : Type ℓ} where
  abbrev pub continue : Try A → (A → Effect W B) → Effect W B
  continue (value a) f w = f a w
  continue (thrown e) f w = (thrown e, w)

  infixl 10 ◌>>=◌ ◌>>◌
  abbrev pub ◌>>=◌ : Effect W A → (A → Effect W B) → Effect W B
  ◌>>=◌ m f w = let (r, w') = m w in continue r f w'

  abbrev pub ◌>>◌ : Effect W A → Effect W B → Effect W B
  m >> n = m >>= λ _. n

-- What holds of the value and the state of a call that does not throw.
abbrev pub OnValue {ℓ κ} : {W A : Type ℓ} → (A → W → Type κ) → Try A × W → Type κ
OnValue P (value a, w) = P a w
OnValue P (thrown e, w) = Unit

-- `try { m } catch (err) { handle }`
module _ {ℓ} {W A : Type ℓ} where
  abbrev pub caught : (String → A) → Try A × W → Try A × W
  caught handle (value a, w) = (value a, w)
  caught handle (thrown e, w) = (value (handle e), w)

  abbrev pub try_catch : Effect W A → (String → A) → Effect W A
  try_catch m handle w = caught handle (m w)

  -- What is asked of the value on each way out of the `try`.
  pub try_catch_rule {κ} :
      (Q : A → W → Type κ) (m : Effect W A) (handle : String → A) (w : W)
      → OnValue Q (m w)
      → ((e : String) (w' : W) → Q (handle e) w')
      → OnValue Q (try_catch m handle w)
  try_catch_rule Q m handle w = go (m w)
    where
      go :
          (t : Try A × W)
          → OnValue Q t
          → ((e : String) (w' : W) → Q (handle e) w')
          → OnValue Q (caught handle t)
      go (value a, w') h k = h
      go (thrown e, w') h k = k e w'

module _ {ℓ κ} {W A B : Type ℓ} where
  pub OnValue-bind :
      (P : A → W → Type κ) (Q : B → W → Type κ) (m : Effect W A) (f : A → Effect W B) (w : W)
      → OnValue P (m w)
      → ((a : A) (w' : W) → P a w' → OnValue Q (f a w'))
      → OnValue Q ((m >>= f) w)
  OnValue-bind P Q m f w = go (m w)
    where
      go :
          (t : Try A × W)
          → OnValue P t
          → ((a : A) (w' : W) → P a w' → OnValue Q (f a w'))
          → OnValue Q (continue t.0 f t.1)
      go (value a, w') h k = k a w' h
      go (thrown e, w') h k = tt

  -- What holds of the state after a call, whether it throws or not.
  pub state-bind :
      (P : W → Type κ) (m : Effect W A) (f : A → Effect W B) (w : W)
      → P (m w).1
      → ((a : A) (w' : W) → P w' → P (f a w').1)
      → P ((m >>= f) w).1
  state-bind P m f w = go (m w)
    where
      go :
          (t : Try A × W)
          → P t.1
          → ((a : A) (w' : W) → P w' → P (f a w').1)
          → P (continue t.0 f t.1).1
      go (value a, w') h k = k a w' h
      go (thrown e, w') h k = h

pub OnValue-map {ℓ κ} :
    {W A : Type ℓ} (P Q : A → W → Type κ) (t : Try A × W)
    → OnValue P t
    → ((a : A) (w : W) → P a w → Q a w)
    → OnValue Q t
OnValue-map P Q (value a, w) h k = k a w h
OnValue-map P Q (thrown e, w) h k = tt

-- What is read of the state is the same after the call, whether it throws or not.
abbrev pub Leaves {ℓ} : {W A X : Type ℓ} → (W → X) → Effect W A → Type ℓ
Leaves {W = W} read m = (w : W) → read (m w).1 ≡ read w

module _ {ℓ} {W A B X : Type ℓ} (read : W → X) where
  pub Leaves-bind :
      (m : Effect W A) (f : A → Effect W B)
      → Leaves read m
      → ((a : A) → Leaves read (f a))
      → Leaves read (m >>= f)
  Leaves-bind m f h k w = state-bind (λ v. read v ≡ read w) m f w (h w) (λ a w' e. k a w' ∙ e)

  pub Leaves-then :
      (m : Effect W A) (n : Effect W B) → Leaves read m → Leaves read n → Leaves read (m >> n)
  Leaves-then m n h k = Leaves-bind m (λ _. n) h (λ _. k)

pub Leaves-catch {ℓ} :
    {W A X : Type ℓ} (read : W → X) (m : Effect W A) (handle : String → A)
    → Leaves read m
    → Leaves read (try_catch m handle)
Leaves-catch {W = W} {A = A} read m handle h w = go (m w) ∙ h w
  where
    go : (t : Try A × W) → read (caught handle t).1 ≡ read t.1
    go (value a, v) = refl
    go (thrown e, v) = refl

-- What holds of the value and the state of a call holds of the ones it is known to give.
pub OnValue-at {ℓ κ} :
    {W A : Type ℓ} (P : A → W → Type κ) (t : Try A × W)
    → OnValue P t
    → (a : A) (w : W) → t ≡ (value a, w)
    → P a w
OnValue-at P (value b, v) h a w e = subst (λ p. OnValue P p) e h
OnValue-at P (thrown f, v) h a w e = cc

-- The call always gives a value.
abbrev pub Returns {ℓ} : {W A : Type ℓ} → Effect W A → Type ℓ
Returns {W = W} {A = A} m = (w : W) → (a : A) × (w' : W) × (m w ≡ (value a, w'))

pub Returns-pure {ℓ} : {W A : Type ℓ} (a : A) → Returns {W = W} (pure a)
Returns-pure a w = (a, w, refl)

pub Returns-bind {ℓ} :
    {W A B : Type ℓ} (m : Effect W A) (f : A → Effect W B)
    → Returns m
    → ((a : A) → Returns (f a))
    → Returns (m >>= f)
Returns-bind m f h k w = let (a, w1, e) = h w in rw e (k a w1)

-- Catching leaves the state as the call did.
pub try_catch-state {ℓ} :
    {W A : Type ℓ} (m : Effect W A) (handle : String → A) (w : W)
    → (try_catch m handle w).1 ≡ (m w).1
try_catch-state {W = W} {A = A} m handle w = go (m w)
  where
    go : (t : Try A × W) → (caught handle t).1 ≡ t.1
    go (value a, v) = refl
    go (thrown e, v) = refl

-- A caught call always gives a value.
pub try_catch-Returns {ℓ} :
    {W A : Type ℓ} (m : Effect W A) (handle : String → A) → Returns (try_catch m handle)
try_catch-Returns {W = W} {A = A} m handle w = go (m w)
  where
    go : (t : Try A × W) → (a : A) × (w' : W) × (caught handle t ≡ (value a, w'))
    go (value a, v) = (a, v, refl)
    go (thrown e, v) = (handle e, v, refl)

pub any_value {ℓ κ} :
    {W A : Type ℓ} (P : A → Type κ) (t : Try A × W) → ((a : A) → P a) → OnValue (λ a w. P a) t
any_value P (value a, w) h = h a
any_value P (thrown e, w) h = tt

-- What holds of the state that a throw leaves behind.
abbrev pub OnThrown {ℓ κ} : {W A : Type ℓ} → (W → Type κ) → Try A × W → Type κ
OnThrown P (value a, w) = Unit
OnThrown P (thrown e, w) = P w

-- A call that gives a value hands a throw on to what follows it.
pub OnThrown-bind {ℓ κ} :
    {W A B : Type ℓ} (P : W → Type κ) (m : Effect W A) (f : A → Effect W B) (w : W)
    → Returns m
    → ((a : A) (w1 : W) → OnThrown P (f a w1))
    → OnThrown P ((m >>= f) w)
OnThrown-bind P m f w h k = let (a, w1, e) = h w in rw e (k a w1)

-- What holds after a call holds where its end is thrown upon.
pub OnThrown-throw {ℓ κ} :
    {W A : Type ℓ} (B : Type ℓ) (P : W → Type κ) (m : Effect W A) (e : String) (w : W)
    → P (m w).1
    → OnThrown {A = B} P ((m >> throw e) w)
OnThrown-throw {W = W} {A = A} B P m e w = go (m w)
  where
    go : (t : Try A × W) → P t.1 → OnThrown {A = B} P (continue t.0 (λ _. throw e) t.1)
    go (value a, v) p = p
    go (thrown f, v) p = p

-- What holds of the state after a throw at the end.
pub state-throw {ℓ κ} :
    {W A : Type ℓ} (B : Type ℓ) (P : W → Type κ) (m : Effect W A) (e : String) (w : W)
    → P (m w).1
    → P ((m >> throw {A = B} e) w).1
state-throw B P m e w h = state-bind P m (λ _. throw e) w h (λ a w1 p. p)
