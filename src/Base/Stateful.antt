-- ===== src/Base/Stateful.antt =====
-- State passing over the world `W` that the system calls read and change.
use mathlib.Core.Path.{◌≡◌, refl}
use mathlib.Core.Option.{Option, none, some}

abbrev pub State : Type 0 → Type 0 → Type 0
State W A = W → A × W

-- Code with a loop that may still be running when its rounds are used up.
abbrev pub Partial : Type 0 → Type 0 → Type 0
Partial W A = W → Option (A × W)

-- A call, and what follows it: another `State`, or a `Partial`.
infixl 5 ◌>>=◌ ◌>>◌
abbrev pub ◌>>=◌ : {W A R : Type 0} → State W A → (A → W → R) → W → R
◌>>=◌ m f w = let r = m w in f r.0 r.1

abbrev pub ◌>>◌ : {W A R : Type 0} → State W A → (W → R) → W → R
◌>>◌ m k w = k (m w).1

abbrev pub pure : {W A : Type 0} → A → State W A
pure a w = (a, w)

-- A `State` where a `Partial` is expected: it has no loop, and returns.
abbrev pub finish : {W A : Type 0} → State W A → Partial W A
finish m w = some (m w)

-- A `Partial`, and the `State` that follows it.
abbrev pub after : {W A B : Type 0} → Partial W A → (A → State W B) → Partial W B
after m f w = elim (m w) [ none ↦ none | some (a, w') ↦ some (f a w') ]

-- A `Partial` that is followed by a `State` returned, if both did.
pub after-eq-some :
    {W A B : Type 0} (m : Partial W A) (f : A → State W B) (w : W) (b : B) (w' : W)
    → after m f w ≡ some (b, w')
    → (a : A) × (v : W) × (m w ≡ some (a, v)) × (f a v ≡ (b, w'))
after-eq-some {W} {A} {B} m f w b w' = split (m w) refl
  where
    split :
        (r : Option (A × W))
        → m w ≡ r
        → elim r as (λ _. Option (B × W)) [ none ↦ none | some (a, v) ↦ some (f a v) ]
          ≡ some (b, w')
        → (a : A) × (v : W) × (m w ≡ some (a, v)) × (f a v ≡ (b, w'))
    split none e h = cc
    split (some (a, v)) e h = (a, v, e, cc)

-- Two pieces of code of which each may still be running.
abbrev pub chain : {W A B : Type 0} → Partial W A → (A → Partial W B) → Partial W B
chain m f w = elim (m w) [ none ↦ none | some (a, w') ↦ f a w' ]

-- A chain that returned: both of its parts did.
pub chain-eq-some :
    {W A B : Type 0} (m : Partial W A) (f : A → Partial W B) (w : W) (b : B) (w' : W)
    → chain m f w ≡ some (b, w')
    → (a : A) × (v : W) × (m w ≡ some (a, v)) × (f a v ≡ some (b, w'))
chain-eq-some {W} {A} {B} m f w b w' = split (m w) refl
  where
    split :
        (r : Option (A × W))
        → m w ≡ r
        → elim r as (λ _. Option (B × W)) [ none ↦ none | some (a, v) ↦ f a v ] ≡ some (b, w')
        → (a : A) × (v : W) × (m w ≡ some (a, v)) × (f a v ≡ some (b, w'))
    split none e h = cc
    split (some (a, v)) e h = (a, v, e, h)

-- The same in the other direction.
pub chain_of_some :
    {W A B : Type 0} (m : Partial W A) (f : A → Partial W B) (w v : W) (a : A)
    → m w ≡ some (a, v)
    → chain m f w ≡ f a v
chain_of_some m f w v a e = rw (e, chain) refl

pub after_of_some :
    {W A B : Type 0} (m : Partial W A) (f : A → State W B) (w v : W) (a : A)
    → m w ≡ some (a, v)
    → after m f w ≡ some (f a v)
after_of_some m f w v a e = rw (e, after) refl

-- Code that returns, with a result and a world that satisfy `Q`.
abbrev pub Yields : {W A : Type 0} → (A → W → Type 0) → Option (A × W) → Type 0
Yields Q none = ⊥
Yields Q (some (a, w)) = Q a w

pub Yields-chain :
    {W A B : Type 0} {P : A → W → Type 0} (Q : B → W → Type 0) (m : Partial W A)
    (f : A → Partial W B) (w : W)
    → Yields P (m w)
    → ((a : A) (v : W) → P a v → Yields Q (f a v))
    → Yields Q (chain m f w)
Yields-chain {W} {A} {B} {P} Q m f w = split (m w)
  where
    split :
        (r : Option (A × W))
        → Yields P r
        → ((a : A) (v : W) → P a v → Yields Q (f a v))
        → Yields Q (elim r as (λ _. Option (B × W)) [ none ↦ none | some (a, v) ↦ f a v ])
    split none h next = absurd h
    split (some (a, v)) h next = next a v h

pub Yields-after :
    {W A B : Type 0} {P : A → W → Type 0} (Q : B → W → Type 0) (m : Partial W A) (f : A → State W B)
    (w : W)
    → Yields P (m w)
    → ((a : A) (v : W) → P a v → Q (f a v).0 (f a v).1)
    → Yields Q (after m f w)
Yields-after {W} {A} {B} {P} Q m f w = split (m w)
  where
    split :
        (r : Option (A × W))
        → Yields P r
        → ((a : A) (v : W) → P a v → Q (f a v).0 (f a v).1)
        → Yields Q (elim r as (λ _. Option (B × W)) [ none ↦ none | some (a, v) ↦ some (f a v) ])
    split none h next = absurd h
    split (some (a, v)) h next = next a v h

pub Yields-mono :
    {W A : Type 0} {P : A → W → Type 0} (Q : A → W → Type 0) (r : Option (A × W))
    → ((a : A) (v : W) → P a v → Q a v)
    → Yields P r
    → Yields Q r
Yields-mono Q none weaken h = absurd h
Yields-mono Q (some (a, w)) weaken h = weaken a w h

-- What is yielded can be named.
pub Yields-some :
    {W A : Type 0} (Q : A → W → Type 0) (r : Option (A × W))
    → Yields Q r
    → (a : A) × (w : W) × (r ≡ some (a, w)) × Q a w
Yields-some Q none h = absurd h
Yields-some Q (some (a, w)) h = (a, w, refl, h)

-- Code that satisfies `Q` if it returns.
abbrev pub Allows : {W A : Type 0} → (A → W → Type 0) → Option (A × W) → Type 0
Allows Q none = Unit
Allows Q (some (a, w)) = Q a w

pub Allows-chain :
    {W A B : Type 0} (Q : B → W → Type 0) (m : Partial W A) (f : A → Partial W B) (w : W)
    → ((a : A) (v : W) → Allows Q (f a v))
    → Allows Q (chain m f w)
Allows-chain {W} {A} {B} Q m f w next = split (m w)
  where
    split :
        (r : Option (A × W))
        → Allows Q (elim r as (λ _. Option (B × W)) [ none ↦ none | some (a, v) ↦ f a v ])
    split none = tt
    split (some (a, v)) = next a v

pub Allows-after :
    {W A B : Type 0} (Q : B → W → Type 0) (m : Partial W A) (f : A → State W B) (w : W)
    → ((a : A) (v : W) → Q (f a v).0 (f a v).1)
    → Allows Q (after m f w)
Allows-after {W} {A} {B} Q m f w next = split (m w)
  where
    split :
        (r : Option (A × W))
        → Allows Q (elim r as (λ _. Option (B × W)) [ none ↦ none | some (a, v) ↦ some (f a v) ])
    split none = tt
    split (some (a, v)) = next a v

-- The same where the first part is known to allow something.
pub Allows-chain_of :
    {W A B : Type 0} {P : A → W → Type 0} (Q : B → W → Type 0) (m : Partial W A)
    (f : A → Partial W B) (w : W)
    → Allows P (m w)
    → ((a : A) (v : W) → P a v → Allows Q (f a v))
    → Allows Q (chain m f w)
Allows-chain_of {W} {A} {B} {P} Q m f w = split (m w)
  where
    split :
        (r : Option (A × W))
        → Allows P r
        → ((a : A) (v : W) → P a v → Allows Q (f a v))
        → Allows Q (elim r as (λ _. Option (B × W)) [ none ↦ none | some (a, v) ↦ f a v ])
    split none h next = tt
    split (some (a, v)) h next = next a v h

pub Allows-after_of :
    {W A B : Type 0} {P : A → W → Type 0} (Q : B → W → Type 0) (m : Partial W A) (f : A → State W B)
    (w : W)
    → Allows P (m w)
    → ((a : A) (v : W) → P a v → Q (f a v).0 (f a v).1)
    → Allows Q (after m f w)
Allows-after_of {W} {A} {B} {P} Q m f w = split (m w)
  where
    split :
        (r : Option (A × W))
        → Allows P r
        → ((a : A) (v : W) → P a v → Q (f a v).0 (f a v).1)
        → Allows Q (elim r as (λ _. Option (B × W)) [ none ↦ none | some (a, v) ↦ some (f a v) ])
    split none h next = tt
    split (some (a, v)) h next = next a v h

pub Allows-mono :
    {W A : Type 0} {P : A → W → Type 0} (Q : A → W → Type 0) (r : Option (A × W))
    → ((a : A) (v : W) → P a v → Q a v)
    → Allows P r
    → Allows Q r
Allows-mono Q none weaken h = tt
Allows-mono Q (some (a, w)) weaken h = weaken a w h

-- Code that may return nothing does not return.
pub Allows-nothing :
    {W A : Type 0} (Q : A → W → Type 0) (r : Option (A × W))
    → ((a : A) (v : W) → Q a v → ⊥)
    → Allows Q r
    → r ≡ none
Allows-nothing Q none never h = refl
Allows-nothing Q (some (a, w)) never h = absurd (never a w h)
