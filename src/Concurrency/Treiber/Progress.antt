-- ===== src/Concurrency/Treiber/Progress.antt =====
-- content/exercises/c1/05-treiber-stack/starter.cpp: the loops of `retire` end.
use cppcourse.Base.{
  ℕ, ◌+◌, ◌*◌, ◌≤◌, ◌<◌, ◌==◌, ◌≡◌, refl, ◌∙◌, arith, inl, inr, Bool, true, false, ◌&&◌, ◌||◌, not,
  List, [], ◌∷◌, ◌++◌, none, some, length, if◌then◌else◌, Bool-cases, ==_iff, Option-cases,
}
use cppcourse.Base.Checked.{◌>>=◌}
use cppcourse.Concurrency.Treiber.{System, Turn, step, run}
use cppcourse.Concurrency.Treiber.Work.{
  is_busy, Covers, work, work-le, Outcome-work, Outcome-pending,
}
use cppcourse.Concurrency.Treiber.Chain.{contains}
use cppcourse.Concurrency.Treiber.Invariant.{is_pending, Parks}
use cppcourse.Concurrency.Treiber.Turns.{step-Outcome, Outcome-Parks}

-- The busy turns of a run.
unfoldable pub busy_turns : List Turn → System → ℕ
busy_turns [] s = 0
busy_turns (t ∷ ts) s =
    (if is_busy t s then 1 else 0) + (elim (step t s) [ none ↦ 0 | some s' ↦ busy_turns ts s' ])

-- The call for `n` has a turn that is not a failure for no reason.
abbrev pub takes_turn : ℕ → List Turn → Bool
takes_turn n [] = false
takes_turn n (t ∷ ts) = (t.node == n && not t.spurious) || takes_turn n ts

-- A run from `s`: where it leads, and what it has used up of the bound.
record Ran (ts : List Turn) (s : System) (hs ps : List ℕ) : Type 0 where
  last : System
  ran : run ts s ≡ some last
  parked : List ℕ
  inv : Parks last hs parked
  earlier : (n : ℕ) → is_pending (last.calls n) ≡ true → is_pending (s.calls n) ≡ true
  spent : busy_turns ts s + work last ps ≤ work s ps
  served :
      (n : ℕ)
      → is_pending (last.calls n) ≡ true
      → (if takes_turn n ts then 1 else 0) ≤ busy_turns ts s

run-Ran :
    (ts : List Turn) {s : System} {hs rs : List ℕ} (ps : List ℕ)
    → Parks s hs rs
    → Covers s ps
    → Ran ts s hs ps
unfolding run busy_turns
run-Ran [] {s} {hs} {rs} ps inv cov = record {
  last = s;
  ran = refl;
  parked = rs;
  inv = inv;
  earlier = λ n h. h;
  spent = omega arith;
  served = λ n h. omega arith;
}
run-Ran (t ∷ ts) {s} ps inv cov =
    let (u, first, out) = step-Outcome inv t in
    let (rs', inv', _) = Outcome-Parks t inv out in
    let later = λ (n : ℕ) (h : is_pending (u.calls n) ≡ true). Outcome-pending t out n h in
    let rest = run-Ran ts ps inv' (λ n h. cov n (later n h)) in
    record {
      last = rest.last;
      ran = rw first rest.ran;
      parked = rest.parked;
      inv = rest.inv;
      earlier = λ n h. later n (rest.earlier n h);
      spent = rw first (omega (arith, rest.spent, Outcome-work t ps cov out));
      served = λ n h.
          rw first (ground (arith, rest.served n h, later n (rest.earlier n h), ==_iff t.node n));
    }

-- With K calls of `retire` in progress, however they interleave and whichever exchanges fail for no
-- reason, their other accesses are at most K * (K + 3) in all: the loops end.
pub busy_turns-le :
    (s : System) (hs rs ps : List ℕ)
    → Parks s hs rs
    → Covers s ps
    → (ts : List Turn) → busy_turns ts s ≤ length ps * (length ps + 3)
busy_turns-le s hs rs ps inv cov ts = omega (arith, (run-Ran ts ps inv cov).spent, work-le s ps)

abbrev pub concat {ℓ} : {A : Type ℓ} → List (List A) → List A
concat [] = []
concat (xs ∷ xss) = xs ++ concat xss

-- In each round each call of the list has a turn that is not a failure for no reason.
abbrev pub AllFair : List (List Turn) → List ℕ → Type 0
AllFair [] ps = Unit
AllFair (r ∷ rounds) ps =
    ((n : ℕ) → contains n ps ≡ true → takes_turn n r ≡ true) × AllFair rounds ps

run-append : (ts us : List Turn) (s : System) → run (ts ++ us) s ≡ (run ts s >>= λ s'. run us s')
unfolding run
run-append [] us s = refl
run-append (t ∷ ts) us s = elim (Option-cases (step t s)) [
  | inl e ↦ rw e refl
  | inr (u, e) ↦ rw e (run-append ts us u)
]

turn_spent :
    (n : ℕ) (r : List Turn) {b : ℕ}
    → (if takes_turn n r then 1 else 0) ≤ b
    → takes_turn n r ≡ true
    → 1 ≤ b
turn_spent n r h e = ground arith

-- While a call of the list is in progress, each fair round lowers the bound.
rounds-work :
    (rounds : List (List Turn)) {s : System} {hs rs : List ℕ} (ps : List ℕ)
    → Parks s hs rs
    → Covers s ps
    → AllFair rounds ps
    → (s' : System) × (run (concat rounds) s ≡ some s')
      × ((rs' : List ℕ) × Parks s' hs rs')
      × ((n : ℕ) → is_pending (s'.calls n) ≡ true → is_pending (s.calls n) ≡ true)
      × ((n : ℕ) → is_pending (s'.calls n) ≡ true → length rounds + work s' ps ≤ work s ps)
unfolding run
rounds-work [] {s} {hs} {rs} ps inv cov fair = (s, refl, (rs, inv), λ n h. h, λ n h. omega arith)
rounds-work (r ∷ rounds) {s} ps inv cov (now, fair) =
    let one = run-Ran r ps inv cov in
    let (s', ran, kept, earlier, fewer) =
      rounds-work rounds ps one.inv (λ n h. cov n (one.earlier n h)) fair in
    let first = λ (n : ℕ) (h : is_pending (s'.calls n) ≡ true). one.earlier n (earlier n h) in
    (
      s',
      run-append r (concat rounds) s ∙ rw one.ran ran,
      kept,
      first,
      λ n h. omega (
        arith,
        fewer n h,
        one.spent,
        turn_spent n r (one.served n (earlier n h)) (now n (cov n (first n h))),
      ),
    )

-- With K calls of `retire` in progress, after more than K * (K + 3) rounds in each of which each of them
-- has a turn that is not a failure for no reason, all of them have returned.
pub run_fair :
    (s : System) (hs rs ps : List ℕ)
    → Parks s hs rs
    → Covers s ps
    → (rounds : List (List Turn)) → AllFair rounds ps
    → length ps * (length ps + 3) < length rounds
    → (s' : System) × (run (concat rounds) s ≡ some s')
      × ((n : ℕ) → is_pending (s'.calls n) ≡ false)
run_fair s hs rs ps inv cov rounds fair many =
    let (s', ran, _, _, fewer) = rounds-work rounds ps inv cov fair in
    (
      s',
      ran,
      λ n. elim (Bool-cases (is_pending (s'.calls n))) [
        | inl h ↦ absurd (omega (arith, fewer n h, work-le s ps))
        | inr h ↦ h
      ],
    )
