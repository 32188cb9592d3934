-- ===== src/Driver/Session/Copies.antt =====
-- What the client's buffer holds once the packets of HW1/part2/SocketServer.cpp have been stored in
-- it, one behind the other.
use cs739_distributed_system.Base.{
  ℕ, zero, suc, ◌+◌, ◌≤◌, ◌<◌, ◌≡◌, refl, sym, ap, subst, ◌∙◌, List, [], ◌∷◌, ◌++◌, append_assoc,
  arith, length, take, drop, All, length-take, take_all, take-add, All-mono,
}
use cs739_distributed_system.Udp.Protocol.{Message}
use cs739_distributed_system.Driver.Plan.{Group, groups, total_size, slice, store_slice}
use cs739_distributed_system.Driver.Agreement.{
  IsInside, groups-IsInside, length-slice, length-store_slice,
}
use cs739_distributed_system.Driver.Session.Receives.{store_times, store_groups}

take-take : {A : Type 0} (n m : ℕ) (xs : List A) → take n (take (n + m) xs) ≡ take n xs
take-take zero m xs = refl
take-take (suc n) m [] = let e : suc n + m ≡ suc (n + m) = omega arith in rw e refl
take-take (suc n) m (x ∷ xs) =
    let e : suc n + m ≡ suc (n + m) = omega arith in rw e (ap (◌∷◌ x) (take-take n m xs))

take_front : {A : Type 0} (xs ys : List A) → take (length xs) (xs ++ ys) ≡ xs
take_front [] ys = refl
take_front (x ∷ xs) ys = ap (◌∷◌ x) (take_front xs ys)

-- Two buffers begin alike.
abbrev Agree : ℕ → List ℕ → List ℕ → Type 0
Agree n xs ys = take n xs ≡ take n ys

Agree-shorter : (n m : ℕ) (xs ys : List ℕ) → Agree (n + m) xs ys → Agree n xs ys
Agree-shorter n m xs ys h = sym (take-take n m xs) ∙ ap (take n) h ∙ take-take n m ys

-- A packet behind a part that agrees already.
store_slice-Agree :
    (g : Group) (source buffer : List ℕ)
    → IsInside (length source) g
    → Agree g.skip_size buffer source
    → Agree (g.skip_size + g.pkt_size) (store_slice g buffer (slice g source)) source
unfolding store_slice slice
store_slice-Agree g source buffer inside h =
    let n = g.skip_size + g.pkt_size in
    let packet = take g.pkt_size (drop g.skip_size source) in
    let more = drop n buffer in
    let front : take g.skip_size buffer ++ packet ≡ take n source =
      ap (λ l. l ++ packet) h ∙ sym (take-add g.skip_size g.pkt_size source) in
    let whole : take g.skip_size buffer ++ (packet ++ more) ≡ take n source ++ more =
      sym (append_assoc (take g.skip_size buffer) packet more) ∙ ap (λ l. l ++ more) front in
    let sized : length (take n source) ≡ n = omega (arith, length-take n source, inside) in
    ap (take n) whole
    ∙ subst (λ k. take k (take n source ++ more) ≡ take n source) sized
        (take_front (take n source) more)

store_times-Agree :
    (n : ℕ) (g : Group) (source buffer : List ℕ)
    → IsInside (length source) g
    → Agree (g.skip_size + g.pkt_size) buffer source
    → Agree (g.skip_size + g.pkt_size) (store_times n g buffer (slice g source)) source
unfolding store_times
store_times-Agree zero g source buffer inside h = h
store_times-Agree (suc n) g source buffer inside h =
    store_times-Agree n g source (store_slice g buffer (slice g source)) inside (
      store_slice-Agree g source buffer inside
        (Agree-shorter g.skip_size g.pkt_size buffer source h))

-- One packet or more of a group.
store_times-copied :
    (n : ℕ) (g : Group) (source buffer : List ℕ)
    → 0 < n
    → IsInside (length source) g
    → Agree g.skip_size buffer source
    → Agree (g.skip_size + g.pkt_size) (store_times n g buffer (slice g source)) source
unfolding store_times
store_times-copied zero g source buffer some_packet inside h = absurd (omega arith)
store_times-copied (suc n) g source buffer some_packet inside h =
    store_times-Agree n g source (store_slice g buffer (slice g source)) inside
      (store_slice-Agree g source buffer inside h)

store_groups-Agree :
    (count skip : ℕ) (sizes source buffer : List ℕ)
    → 0 < count
    → skip + total_size sizes ≤ length source
    → Agree skip buffer source
    → Agree (skip + total_size sizes) (store_groups (groups count skip sizes) source buffer) source
unfolding store_groups groups total_size
store_groups-Agree count skip [] source buffer some_packet inside h =
    let e : skip + 0 ≡ skip = omega arith in subst (λ k. Agree k buffer source) (sym e) h
store_groups-Agree count skip (size ∷ sizes) source buffer some_packet inside h =
    let g : Group = record { skip_size = skip; pkt_size = size; count = count } in
    let once = store_times-copied count g source buffer some_packet (omega (arith, inside)) h in
    let e : skip + size + total_size sizes ≡ skip + (size + total_size sizes) = omega arith in
    subst
      (λ k.
        Agree k
          (store_groups (groups count (skip + size) sizes) source
            (store_times count g buffer (slice g source)))
          source)
      e
      (store_groups-Agree count (skip + size) sizes source _ some_packet (omega (arith, inside))
        once)

length-store_times :
    (n : ℕ) (g : Group) (buffer : List ℕ) (m : Message)
    → IsInside (length buffer) g
    → length m ≡ g.pkt_size
    → length (store_times n g buffer m) ≡ length buffer
unfolding store_times
length-store_times zero g buffer m inside fits = refl
length-store_times (suc n) g buffer m inside fits =
    let kept = length-store_slice g buffer m inside fits in
    length-store_times n g (store_slice g buffer m) m (omega (arith, kept, inside)) fits ∙ kept

length-store_groups :
    (gs : List Group) (source buffer : List ℕ)
    → length source ≡ length buffer
    → All (IsInside (length buffer)) gs
    → length (store_groups gs source buffer) ≡ length buffer
unfolding store_groups
length-store_groups [] source buffer same all = refl
length-store_groups (g ∷ gs) source buffer same (inside, all) =
    let m = slice g source in
    let kept : length (store_times g.count g buffer m) ≡ length buffer =
      length-store_times g.count g buffer m inside
        (length-slice g source (omega (arith, same, inside))) in
    length-store_groups gs source (store_times g.count g buffer m) (same ∙ sym kept)
      (subst (λ n. All (IsInside n) gs) (sym kept) all)
    ∙ kept

-- Groups that fill the buffer copy it, whatever was in it before.
pub store_groups-copied :
    (count : ℕ) (sizes source buffer : List ℕ)
    → 0 < count
    → length source ≡ total_size sizes
    → length buffer ≡ total_size sizes
    → store_groups (groups count 0 sizes) source buffer ≡ source
store_groups-copied count sizes source buffer some_packet same same' =
    let copied = store_groups (groups count 0 sizes) source buffer in
    let alike =
      store_groups-Agree count 0 sizes source buffer some_packet (omega (arith, same)) refl in
    let sized : length copied ≡ length buffer =
      length-store_groups (groups count 0 sizes) source buffer (same ∙ sym same') (
        subst (λ n. All (IsInside n) (groups count 0 sizes)) (sym same')
          (All-mono (IsInside (0 + total_size sizes)) (IsInside (total_size sizes))
            (groups count 0 sizes) (λ g h. omega (arith, h)) (groups-IsInside count 0 sizes))) in
    sym (take_all (0 + total_size sizes) copied (omega (arith, sized, same')))
    ∙ alike
    ∙ take_all (0 + total_size sizes) source (omega (arith, same))
