-- ===== src/Cache/Lru/Policy.antt =====
-- The policy that `lru` of src/cache/cache.c implements: the matrix stands for the history of the
-- accesses, and the index that it gives is the line that was used least recently.
use ch_arm_v5_system_emulato.Base.{
  ℕ, zero, suc, ◌+◌, ◌≤◌, ◌<◌, Bool, true, false, List, [], ◌∷◌, some, ◌==◌, if◌then◌else◌, to_ℕ,
  Bool-cases, ◌≡◌, ◌≢◌, inl, inr, refl, sym, ap, ◌∙◌, arith,
}
use ch_arm_v5_system_emulato.Cache.Lru.{set_row, clear_column, is_lru, find_lru, lru}
use ch_arm_v5_system_emulato.Cache.Lru.Matrix.{entry, touched-entry, is_lru-true, is_lru_complete}

-- Whether `i` was accessed after the last access of `j`; the latest access stands first.
abbrev pub newer : List ℕ → ℕ → ℕ → Bool
newer [] i j = false
newer (x ∷ history) i j = if x == i then true else if x == j then false else newer history i j

-- The matrix tells of any two of the first `a` lines which was accessed later.
abbrev pub Represents : ℕ → ℕ → List ℕ → Type 0
Represents a matrix history =
    (i j : ℕ) → i < a → j < a → i ≢ j → entry matrix i j ≡ to_ℕ (newer history i j)

newer_trans :
    (history : List ℕ) (i j k : ℕ)
    → i ≢ j
    → j ≢ k
    → newer history i j ≡ true
    → newer history j k ≡ true
    → newer history i k ≡ true
newer_trans [] i j k ne ne' p q = p
newer_trans (x ∷ history) i j k ne ne' p q = ground (arith, newer_trans history i j k)

newer_asymm :
    (history : List ℕ) (i j : ℕ) → i ≢ j → newer history i j ≡ true → newer history j i ≡ false
newer_asymm [] i j ne p = refl
newer_asymm (x ∷ history) i j ne p = ground (arith, newer_asymm history i j)

-- No other of the first `a` lines is older than `r`.
abbrev pub IsOldest : ℕ → List ℕ → ℕ → Type 0
IsOldest a history r = (j : ℕ) → j < a → j ≢ r → newer history r j ≡ false

-- Among the first lines one is oldest.
oldest : (a : ℕ) (history : List ℕ) → 0 < a → (r : ℕ) × (r < a) × IsOldest a history r
oldest zero history h = absurd (omega arith)
oldest (suc zero) history h = (0, omega arith, λ j p ne. absurd (omega arith))
oldest (suc (suc a)) history h =
    let (r, lt, old) = oldest (suc a) history (omega arith) in
    elim (Bool-cases (newer history r (suc a))) [
      | inl younger ↦ (
        suc a,
        omega arith,
        λ j p ne.
            ground (arith, old j, newer_trans history r (suc a) j, newer_asymm history r (suc a)),
      )
      | inr older ↦ (r, omega arith, λ j p ne. ground (arith, old j, older))
    ]

unset : (b : Bool) → to_ℕ b ≡ 0 → b ≡ false
unset b h = ground arith

-- The search finds an oldest line, if there is one from row `i` on.
find_lru-IsOldest :
    (a matrix i left r : ℕ)
    → a ≤ 8
    → i + left ≡ a
    → i ≤ r
    → r < a
    → is_lru matrix r 0 a ≡ true
    → let found = find_lru a matrix i left in (found < a) × (is_lru matrix found 0 a ≡ true)
unfolding find_lru
find_lru-IsOldest a matrix i zero r ha e p q h = absurd (omega arith)
find_lru-IsOldest a matrix i (suc left) r ha e p q h = elim (Bool-cases (is_lru matrix i 0 a)) [
  | inl here ↦ rw here (omega arith, here)
  | inr there ↦
      let ne : i ≢ r = λ same. cc (ap (λ k. is_lru matrix k 0 a) same) in
      rw there (find_lru-IsOldest a matrix (suc i) left r ha (omega arith) (omega arith) q h)
]

touched-Represents :
    (a access matrix : ℕ) (history : List ℕ)
    → a ≤ 8
    → access < a
    → Represents a matrix history
    → Represents a (clear_column access 0 a (set_row access 0 a matrix)) (access ∷ history)
touched-Represents a access matrix history ha hx rep i j hi hj ne =
    ground (arith, touched-entry a access matrix i j, rep i j)

-- On a set with 1 to 8 lines whose matrix represents an access history, lru passes its assertions,
-- leaves a matrix that represents the history with this access in front, and returns a line that
-- no other line is older than.
pub lru-IsOldest :
    (a access matrix : ℕ) (history : List ℕ)
    → 1 ≤ a
    → a ≤ 8
    → access < a
    → Represents a matrix history
    → (r matrix' : ℕ) × (lru a access matrix ≡ some (r, matrix'))
      × (r < a)
      × IsOldest a (access ∷ history) r
      × Represents a matrix' (access ∷ history)
unfolding lru
lru-IsOldest a access matrix history pos ha hx rep =
    let matrix' = clear_column access 0 a (set_row access 0 a matrix) in
    let rep' = touched-Represents a access matrix history ha hx rep in
    let (r, lt, old) = oldest a (access ∷ history) pos in
    let zero_row =
      is_lru_complete matrix' r 0 a (omega arith) (omega arith)
        (λ c p ne. rep' r c lt (omega arith) (λ e. ne (sym e)) ∙ rw (old c (omega arith) ne)) in
    let (below, found) =
      find_lru-IsOldest a matrix' 0 a r ha (omega arith) (omega arith) lt zero_row in
    (
      find_lru a matrix' 0 a,
      matrix',
      ground arith,
      below,
      λ j p ne. unset _ (
          sym (rep' (find_lru a matrix' 0 a) j below p (λ e. ne (sym e)))
          ∙ is_lru-true matrix' (find_lru a matrix' 0 a) 0 a j (omega arith) (omega arith) found
              (omega arith) (omega arith) ne),
      rep',
    )
