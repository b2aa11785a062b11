-- ===== src/Debugging/Search/Binary.antt =====
-- What `binary_search` returns.
use cppcourse.Base.{
  ℕ, zero, suc, ◌+◌, ◌-◌, ◌/◌, ◌≤◌, ◌<◌, ◌^◌, ◌≡◌, ◌≢◌, refl, arith, ◌⊎◌, inl, inr,
}
use cppcourse.Base.{List, some, length, get_or, get_elem?-eq-get_or, Bool-cases, if◌then◌else◌}
use cppcourse.Base.Int.{ℤ, pos, negsuc, sub_ℕ, ◌≤ℤ◌, eqb_ℤ, ltb_ℤ, int}
use cppcourse.Base.{dec_lt, true, false}
use cppcourse.Base.Int.{eq_of_parts}
use cppcourse.Debugging.Search.{search_loop, binary_search}

abbrev pub elem : List ℤ → ℕ → ℤ
elem arr i = get_or arr i (pos 0)

abbrev pub IsSorted : List ℤ → ℕ → Type 0
IsSorted arr n = (i j : ℕ) → i ≤ j → j < n → elem arr i ≤ℤ elem arr j

smaller_ne : (a b v : ℤ) → a ≤ℤ b → ltb_ℤ b v ≡ true → a ≢ v
smaller_ne a b v h less e = ground arith

larger_ne : (a b v : ℤ) → b ≤ℤ a → eqb_ℤ b v ≡ false → ltb_ℤ b v ≡ false → a ≢ v
larger_ne a b v h miss more e = ground arith

module _ (arr : List ℤ) (val : ℤ) where
  -- The loop at `lo ≤ hi` looks at the middle.
  search_loop-suc :
      (fuel l h : ℕ)
      → l ≤ h
      → h < length arr
      → h < 2 ^ 31 - 1
      → let m = l + (h - l) / 2 in
        search_loop (suc fuel) arr val (pos l) (pos h) ≡ (
          if eqb_ℤ (elem arr m) val
          then some (pos (m + 1))
          else if ltb_ℤ (elem arr m) val
          then search_loop fuel arr val (pos (m + 1)) (pos h)
          else search_loop fuel arr val (pos l) (sub_ℕ m 1))
  unfolding search_loop
  search_loop-suc fuel l h below inside small =
      ground (arith, get_elem?-eq-get_or arr (l + (h - l) / 2) (pos 0))

  search_loop-empty :
      (fuel l : ℕ) → search_loop (suc fuel) arr val (pos l) (sub_ℕ l 1) ≡ some (negsuc 0)
  unfolding search_loop
  search_loop-empty fuel l = ground arith

  -- `r` answers the search in `arr[l..t)`: -1 if the value is not there, otherwise one more than an
  -- index at which it is.
  abbrev pub Answers : ℕ → ℕ → ℤ → Type 0
  Answers l t r =
      ((r ≡ negsuc 0) × ((i : ℕ) → l ≤ i → i < t → elem arr i ≢ val))
      ⊎ ((m : ℕ) × (l ≤ m) × (m < t) × (elem arr m ≡ val) × (r ≡ pos (m + 1)))

  widen :
      (l t l' t' : ℕ) (r : ℤ)
      → l ≤ l'
      → t' ≤ t
      → ((i : ℕ) → l ≤ i → i < t → (i < l') ⊎ (t' ≤ i) → elem arr i ≢ val)
      → Answers l' t' r
      → Answers l t r
  widen l t l' t' r a b out (inl (e, none_in)) = inl (
    e,
    λ i p q. elim (dec_lt i l') [
      | yes low ↦ out i p q (inl low)
      | no high ↦ elim (dec_lt i t') [
        | yes mid ↦ none_in i (omega arith) mid
        | no top ↦ out i p q (inr (omega arith))
      ]
    ],
  )
  widen l t l' t' r a b out (inr (m, p, q, e, f)) = inr (m, omega arith, omega arith, e, f)

  module _ (n : ℕ) (sorted : IsSorted arr n) (whole : n ≤ length arr) (small : n < 2 ^ 31) where
    search_loop-Answers :
        (fuel l t : ℕ)
        → l ≤ t
        → t ≤ n
        → t - l < fuel
        → (r : ℤ) × (search_loop fuel arr val (pos l) (sub_ℕ t 1) ≡ some r) × Answers l t r
    search_loop-Answers zero l t a b f = absurd (omega arith)
    search_loop-Answers (suc fuel) l t a b f = elim (dec_lt l t) [
      | no e ↦
          let same : l ≡ t = omega arith in
          (
            negsuc 0,
            rw (← same) (search_loop-empty fuel l),
            inl (refl, λ i p q. absurd (omega arith)),
          )
      | yes below ↦
          let m = l + (t - 1 - l) / 2 in
          let top : sub_ℕ t 1 ≡ pos (t - 1) = ground arith in
          let round = search_loop-suc fuel l (t - 1) (omega arith) (omega arith) (omega arith) in
          elim (Bool-cases (eqb_ℤ (elem arr m) val)) [
            | inl hit ↦ (
              pos (m + 1),
              rw (top, round, hit),
              inr (m, omega arith, omega arith, eq_of_parts (elem arr m) val (ground arith), refl),
            )
            | inr miss ↦ elim (Bool-cases (ltb_ℤ (elem arr m) val)) [
              | inl less ↦
                  let (r, returns, answer) =
                    search_loop-Answers fuel (m + 1) t (omega arith) b (omega arith) in
                  (
                    r,
                    rw (top, round, miss, less, ← top) returns,
                    widen l t (m + 1) t r (omega arith) (omega arith)
                        (λ i p q w e.
                          smaller_ne (elem arr i) (elem arr m) val
                            (sorted i m (omega arith) (omega arith)) less e)
                        answer,
                  )
              | inr more ↦
                  let (r, returns, answer) =
                    search_loop-Answers fuel l m (omega arith) (omega arith) (omega arith) in
                  (
                    r,
                    rw (top, round, miss, more) returns,
                    widen l t l m r (omega arith) (omega arith)
                        (λ i p q w e.
                          larger_ne (elem arr i) (elem arr m) val
                            (sorted m i (omega arith) (omega arith)) miss more e)
                        answer,
                  )
            ]
          ]
    ]

    -- On a sorted array that holds the first `n` elements, with `n` an `int`, the search ends with no
    -- overflow and no access out of range, and returns -1 if the value is not among them, otherwise
    -- one more than an index at which it is.
    pub binary_search_lem : (r : ℤ) × (binary_search arr (pos n) val ≡ some r) × Answers 0 n r
    unfolding binary_search
    binary_search_lem =
        let (r, returns, answer) =
          search_loop-Answers (suc n) 0 n (omega arith) (omega arith) (omega arith) in
        let first : int (sub_ℕ n 1) ≡ some (sub_ℕ n 1) = ground arith in
        let same : n + 0 ≡ n = omega arith in (r, rw (same, first) returns, answer)
