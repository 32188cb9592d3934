-- ===== src/PacketSize/Suffix.antt =====
-- What the size is, and what becomes of the text.
use cs739_distributed_system.Base.{
  ℕ, ◌*◌, ◌%◌, ◌^◌, ◌≤◌, ◌<◌, ◌≡◌, refl, sym, ap, subst, ◌∙◌, ◌||◌, Option, none, some, List, [],
  ◌∷◌, ◌++◌, arith, ◌==◌, if◌then◌else◌, lt→ltb, ℤ, pos, some-injective,
}
use cs739_distributed_system.PacketSize.{to_int, scaled, split_last, by_suffix, get_packet_size}

-- Splitting undoes appending.
split_last-append : (b c : ℕ) (bs : List ℕ) → split_last b (bs ++ c ∷ []) ≡ (b ∷ bs, c)
unfolding split_last
split_last-append b c [] = refl
split_last-append b c (d ∷ bs) = rw (split_last-append d c bs) refl

append-split_last : (b : ℕ) (bs : List ℕ) → let r = split_last b bs in r.0 ++ r.1 ∷ [] ≡ b ∷ bs
unfolding split_last
append-split_last b [] = refl
append-split_last b (c ∷ cs) = ap (◌∷◌ b) (append-split_last c cs)

-- The size of a text that ends in `c`.
get_packet_size-append :
    (atoi : List ℕ → ℤ) (front : List ℕ) (c : ℕ)
    → get_packet_size atoi (front ++ c ∷ []) ≡ some (by_suffix atoi front c)
unfolding get_packet_size
get_packet_size-append atoi [] c = refl
get_packet_size-append atoi (b ∷ bs) c = rw (split_last-append b c bs) refl

-- The written suffix is the capital letter, and it means the same.
by_suffix_again :
    (atoi : List ℕ → ℤ) (front : List ℕ) (c : ℕ)
    → get_packet_size atoi (by_suffix atoi front c).1 ≡ some (by_suffix atoi front c)
unfolding by_suffix
by_suffix_again atoi front c = grind (arith, get_packet_size-append atoi front)

-- Calling the function again on the text that it left gives the same size, and changes the text no
-- more: a small suffix has become a capital one.
get_packet_size_again :
    (atoi : List ℕ → ℤ) (s s' : List ℕ) (n : ℤ)
    → get_packet_size atoi s ≡ some (n, s')
    → get_packet_size atoi s' ≡ some (n, s')
get_packet_size_again atoi [] s' n h = unfold get_packet_size in cc
get_packet_size_again atoi (b ∷ bs) s' n h =
    let r = split_last b bs in
    let e : by_suffix atoi r.0 r.1 ≡ (n, s') = some-injective _ _ (
      sym (get_packet_size-append atoi r.0 r.1)
      ∙ ap (get_packet_size atoi) (append-split_last b bs)
      ∙ h) in
    subst (λ p. get_packet_size atoi p.1 ≡ some p) e (by_suffix_again atoi r.0 r.1)

-- What a suffix stands for.
abbrev pub unit : ℕ → Option ℕ
unit c =
    if c == b'k' || c == b'K'
    then some 1024
    else if c == b'm' || c == b'M'
    then some (1024 * 1024)
    else none

scaled-pos : (v u : ℕ) → 0 < u → v * u < 2 ^ 31 → scaled (pos v) u ≡ pos (v * u)
unfolding scaled to_int
scaled-pos v u h fits =
    let small : v ≤ v * u = grind arith in
    let e : v % 2 ^ 32 ≡ v = omega arith in
    let e' : (v * u) % 2 ^ 32 ≡ v * u = omega arith in rw (e, e', lt→ltb (v * u) (2 ^ 31) fits) refl

by_suffix_value :
    (atoi : List ℕ → ℤ) (front : List ℕ) (c v u : ℕ)
    → atoi front ≡ pos v
    → unit c ≡ some u
    → v * u < 2 ^ 31
    → (by_suffix atoi front c).0 ≡ pos (v * u)
unfolding by_suffix
by_suffix_value atoi front c v u number suffix fits = ground (arith, scaled-pos v u)

-- A number with a suffix is the number times what the suffix stands for, if that is an `int`.
pub get_packet_size_value :
    (atoi : List ℕ → ℤ) (front : List ℕ) (c v u : ℕ)
    → atoi front ≡ pos v
    → unit c ≡ some u
    → v * u < 2 ^ 31
    → (s' : List ℕ) × (get_packet_size atoi (front ++ c ∷ []) ≡ some (pos (v * u), s'))
get_packet_size_value atoi front c v u number suffix fits =
    let e = by_suffix_value atoi front c v u number suffix fits in
    ((by_suffix atoi front c).1, get_packet_size-append atoi front c ∙ ap some (ground arith))

-- A number of megabytes that is a multiple of 4096 and is no more than an `int` wraps round to
-- size 0.
pub get_packet_size_wraps :
    (atoi : List ℕ → ℤ) (front : List ℕ) (k : ℕ)
    → atoi front ≡ pos (4096 * k)
    → 4096 * k < 2 ^ 31
    → get_packet_size atoi (front ++ b'M' ∷ []) ≡ some (pos 0, front ++ b'M' ∷ [])
get_packet_size_wraps atoi front k number fits =
    get_packet_size-append atoi front b'M'
    ∙ ap some (unfold by_suffix scaled to_int in ground arith)
