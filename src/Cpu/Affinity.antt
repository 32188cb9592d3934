-- ===== src/Cpu/Affinity.antt =====
-- What `get_cpu_core` prints, and when it leaves its buffer.
use cs739_distributed_system.Base.{
  ℕ, zero, suc, ◌+◌, ◌*◌, ◌/◌, ◌%◌, ◌≤◌, ◌<◌, ◌≡◌, refl, sym, ap, ◌∙◌, ◌≢◌, inl, inr, Bool, true,
  false, some, List, [], ◌∷◌, ◌++◌, append_assoc, append-nil, arith, dec_lt, ltb, if◌then◌else◌,
  lt→ltb, le→ltb, Bool-cases, length, length-append, ℤ, pos, State,
}
use cs739_distributed_system.Tcp.Net.{faulted, value}
use cs739_distributed_system.Cpu.{
  cpu_setsize, digits, cpu_text, add_cpu, add_cpus, print_cpus, report_cpus, get_cpu_core,
}

cpu_text-digit : (j : ℕ) → j < 10 → cpu_text j ≡ (b'0' + j) ∷ b' ' ∷ []
unfolding cpu_text digits
cpu_text-digit j h = rw (lt→ltb j 10 h) refl

digits-longer : (more n : ℕ) (bytes : List ℕ) → length bytes ≤ length (digits more n bytes)
unfolding digits
digits-longer zero n bytes = omega arith
digits-longer (suc more) n bytes = elim (Bool-cases (ltb n 10)) [
  | inl e ↦ rw e (omega arith)
  | inr e ↦
      rw e (let shorter = digits-longer more (n / 10) ((b'0' + n % 10) ∷ bytes) in omega arith)
]

digits-another : (more n : ℕ) (bytes : List ℕ) → length bytes < length (digits (suc more) n bytes)
unfolding digits
digits-another more n bytes = elim (Bool-cases (ltb n 10)) [
  | inl e ↦ rw e (omega arith)
  | inr e ↦
      rw e (let shorter = digits-longer more (n / 10) ((b'0' + n % 10) ∷ bytes) in omega arith)
]

digits-step :
    (more n : ℕ) (bytes : List ℕ)
    → 10 ≤ n
    → digits (suc more) n bytes ≡ digits more (n / 10) ((b'0' + n % 10) ∷ bytes)
unfolding digits
digits-step more n bytes h = rw (le→ltb n 10 h) refl

cpu_text-wide : (j : ℕ) → 10 ≤ j → 2 < length (cpu_text j)
unfolding cpu_text
cpu_text-wide zero h = absurd (omega arith)
cpu_text-wide (suc j) h =
    let step = digits-step (suc j) (suc j) (b' ' ∷ []) h in
    let two = digits-another j (suc j / 10) ((b'0' + suc j % 10) ∷ b' ' ∷ []) in
    omega (arith, ap length step)

-- The members of the set among so many CPUs from `j` on.
unfoldable pub members : (ℕ → Bool) → ℕ → ℕ → List ℕ
members my_set zero j = []
members my_set (suc n) j =
    let rest = members my_set n (j + 1) in if my_set j then j ∷ rest else rest

-- The line for a list of CPUs.
unfoldable pub cpu_line : List ℕ → List ℕ
cpu_line [] = []
cpu_line (j ∷ js) = cpu_text j ++ cpu_line js

module _ (my_set : ℕ → Bool) where
  add_cpu-absent :
      (j count : ℕ) (str : List ℕ)
      → my_set j ≡ false
      → add_cpu my_set j (count, str) ≡ value (count, str)
  unfolding add_cpu
  add_cpu-absent j count str e = rw e refl

  add_cpu-digit :
      (j count : ℕ) (str : List ℕ)
      → my_set j ≡ true
      → j < 10
      → length str ≤ 2 * j + 1
      → add_cpu my_set j (count, str) ≡ value (count + 1, str ++ cpu_text j)
  unfolding add_cpu
  add_cpu-digit j count str e h short =
      let two : length (cpu_text j) ≡ 2 = ap length (cpu_text-digit j h) in
      let inside : ltb 3 (length (cpu_text j) + 1) ≡ false = le→ltb _ _ (omega arith) in
      let fits : ltb 80 (length str + length (cpu_text j) + 1) ≡ false = le→ltb _ _ (omega arith) in
      rw (e, inside, fits) refl

  add_cpu-wide :
      (j count : ℕ) (str : List ℕ)
      → my_set j ≡ true
      → 10 ≤ j
      → add_cpu my_set j (count, str) ≡ faulted
  unfolding add_cpu
  add_cpu-wide j count str e h =
      let outside : ltb 3 (length (cpu_text j) + 1) ≡ true =
        lt→ltb _ _ (omega (arith, cpu_text-wide j h)) in
      rw (e, outside) refl

  add_cpus-value :
      (n j : ℕ) (r r' : ℕ × List ℕ)
      → add_cpu my_set j r ≡ value r'
      → add_cpus my_set (suc n) j r ≡ add_cpus my_set n (j + 1) r'
  unfolding add_cpus
  add_cpus-value n j r r' e = rw (e, add_cpus) refl

  add_cpus-faulted :
      (n j : ℕ) (r : ℕ × List ℕ)
      → add_cpu my_set j r ≡ faulted
      → add_cpus my_set (suc n) j r ≡ faulted
  unfolding add_cpus
  add_cpus-faulted n j r e = rw (e, add_cpus) refl

  members-in : (n j : ℕ) → my_set j ≡ true → members my_set (suc n) j ≡ j ∷ members my_set n (j + 1)
  unfolding members
  members-in n j e = rw (e, members) refl

  members-out : (n j : ℕ) → my_set j ≡ false → members my_set (suc n) j ≡ members my_set n (j + 1)
  unfolding members
  members-out n j e = rw (e, members) refl

  -- A number of CPUs that are all below ten fits.
  add_cpus-digits :
      (n j count : ℕ) (str : List ℕ)
      → ((i : ℕ) → 10 ≤ i → i < j + n → my_set i ≡ false)
      → length str ≤ 2 * j + 1
      → add_cpus my_set n j (count, str)
        ≡ value (count + length (members my_set n j), str ++ cpu_line (members my_set n j))
  unfolding add_cpus members cpu_line
  add_cpus-digits zero j count str none_wide short =
      let same : count ≡ count + 0 = omega arith in
      ap value (ap (λ c. (c, str)) same ∙ ap (λ s. (count + 0, s)) (sym (append-nil str)))
  add_cpus-digits (suc n) j count str none_wide short = elim (Bool-cases (my_set j)) [
    | inl e ↦
        let small : j < 10 = elim (dec_lt j 10) [
          | yes h ↦ h
          | no h ↦ absurd (let e' = none_wide j (omega arith) (omega arith) in cc)
        ] in
        let two : length (cpu_text j) ≡ 2 = ap length (cpu_text-digit j small) in
        let more =
          add_cpus-digits n (j + 1) (count + 1) (str ++ cpu_text j)
            (λ i h k. none_wide i h (omega arith))
            (omega (arith, length-append str (cpu_text j))) in
        let rest = members my_set n (j + 1) in
        let total : count + 1 + length rest ≡ count + suc (length rest) = omega arith in
        add_cpus-value n j (count, str) (count + 1, str ++ cpu_text j)
          (add_cpu-digit j count str e small short)
        ∙ more
        ∙ ap (λ c. value (c, (str ++ cpu_text j) ++ cpu_line rest)) total
        ∙ ap (λ s. value (count + suc (length rest), s))
            (append_assoc str (cpu_text j) (cpu_line rest))
        ∙ ap (λ l. value (count + length l, str ++ cpu_line l)) (sym (members-in n j e))
    | inr e ↦
        add_cpus-value n j (count, str) (count, str) (add_cpu-absent j count str e)
        ∙ add_cpus-digits n (j + 1) count str (λ i h k. none_wide i h (omega arith)) (omega arith)
        ∙ ap (λ l. value (count + length l, str ++ cpu_line l)) (sym (members-out n j e))
  ]

  -- A member from ten on does not.
  add_cpus-wide :
      (n j i count : ℕ) (str : List ℕ)
      → my_set i ≡ true
      → 10 ≤ i
      → j ≤ i
      → i < j + n
      → length str ≤ 2 * j + 1
      → add_cpus my_set n j (count, str) ≡ faulted
  unfolding add_cpus
  add_cpus-wide zero j i count str e h from to short = absurd (omega arith)
  add_cpus-wide (suc n) j i count str e h from to short = elim (Bool-cases (my_set j)) [
    | inl f ↦ elim (dec_lt j 10) [
      | yes small ↦
          let two : length (cpu_text j) ≡ 2 = ap length (cpu_text-digit j small) in
          let after_j : j < i = omega arith in
          add_cpus-value n j (count, str) (count + 1, str ++ cpu_text j)
            (add_cpu-digit j count str f small short)
          ∙ add_cpus-wide n (j + 1) i (count + 1) (str ++ cpu_text j) e h (omega arith)
              (omega arith) (omega (arith, length-append str (cpu_text j)))
      | no large ↦ add_cpus-faulted n j (count, str) (add_cpu-wide j count str f (omega arith))
    ]
    | inr f ↦
        let other : j ≢ i = λ same. (let g : my_set j ≡ my_set i = ap my_set same in cc) in
        add_cpus-value n j (count, str) (count, str) (add_cpu-absent j count str f)
        ∙ add_cpus-wide n (j + 1) i count str e h (omega arith) (omega arith) (omega arith)
  ]

  -- When the system gives a set of CPUs that has no member from 10 on, the line that is printed lists
  -- the members in ascending order, with their number.
  pub get_cpu_core-line :
      {W : Type 0} (sched_getaffinity : ℕ → State W (ℤ × (ℕ → Bool))) (pid : ℕ) (w w' : W)
      → sched_getaffinity pid w ≡ ((pos 0, my_set), w')
      → ((i : ℕ) → 10 ≤ i → i < cpu_setsize → my_set i ≡ false)
      → let cpus = members my_set cpu_setsize 0 in
        get_cpu_core sched_getaffinity pid w
        ≡ (value (pos 0, some (length cpus, b' ' ∷ cpu_line cpus)), w')
  unfolding get_cpu_core report_cpus print_cpus
  get_cpu_core-line sched_getaffinity pid w w' got none_wide =
      let line = add_cpus-digits cpu_setsize 0 0 (b' ' ∷ []) none_wide (omega arith) in
      let total : 0 + length (members my_set cpu_setsize 0)
          ≡ length (members my_set cpu_setsize 0) =
        omega arith in
      ap (λ r. (report_cpus r.0, r.1)) got
      ∙ ap (λ o. (print_cpus o, w')) line
      ∙ ap (λ n. (value (pos 0, some (n, b' ' ∷ cpu_line (members my_set cpu_setsize 0))), w'))
          total

  -- When the set has a member from 10 on, the function writes behind the end of `cpunum`.
  pub get_cpu_core-faulted :
      {W : Type 0} (sched_getaffinity : ℕ → State W (ℤ × (ℕ → Bool))) (pid i : ℕ) (w w' : W)
      → sched_getaffinity pid w ≡ ((pos 0, my_set), w')
      → my_set i ≡ true
      → 10 ≤ i
      → i < cpu_setsize
      → get_cpu_core sched_getaffinity pid w ≡ (faulted, w')
  unfolding get_cpu_core report_cpus print_cpus
  get_cpu_core-faulted sched_getaffinity pid i w w' got e h k =
      let left = add_cpus-wide cpu_setsize 0 i 0 (b' ' ∷ []) e h (omega arith) k (omega arith) in
      ap (λ r. (report_cpus r.0, r.1)) got ∙ ap (λ o. (print_cpus o, w')) left
