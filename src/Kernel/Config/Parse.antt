-- ===== src/Kernel/Config/Parse.antt =====
-- How the configuration module takes its input apart.
use cppcourse.Base.{
  ℕ, ◌≡◌, ◌≢◌, refl, ap, ◌==◌, List, [], ◌∷◌, ◌++◌, none, some, inl, inr, ◌⊎◌, Bool-cases, take,
  arith, ==_iff, ==_false, false,
}
use cppcourse.Kernel.Api.{Kernel}
use cppcourse.Kernel.Config.{split_space, parse_cfg}

-- `c` does not occur in the text.
abbrev pub Free : ℕ → List ℕ → Type 0
Free c [] = Unit {0}
Free c (x ∷ s) = (x ≢ c) × Free c s

differs : (c : ℕ) → (c == b' ') ≡ false → c ≢ b' '
differs c e same = ground arith

-- Either the text has no space and `split_space` finds none, or it splits the text at the first one.
pub split_space_lem :
    (s : List ℕ)
    → ((split_space s ≡ none) × Free b' ' s)
      ⊎ ((before : List ℕ) × (after : List ℕ) × (split_space s ≡ some (before, after))
          × (s ≡ before ++ b' ' ∷ after)
          × Free b' ' before)
unfolding split_space
split_space_lem [] = inl (refl, tt)
split_space_lem (c ∷ s) = elim (Bool-cases (c == b' ')) [
  | inl e ↦ inr ([], s, rw e, ap (λ x. x ∷ s) ((==_iff c b' ').0 e), tt)
  | inr e ↦ elim (split_space_lem s) [
    | inl (missing, free) ↦ inl (rw (e, missing), (differs c e, free))
    | inr (before, after, found, split, free) ↦
        inr (c ∷ before, after, rw (e, found), ap (λ t. c ∷ t) split, (differs c e, free))
  ]
]

split_space-append :
    (before after : List ℕ)
    → Free b' ' before
    → split_space (before ++ b' ' ∷ after) ≡ some (before, after)
unfolding split_space
split_space-append [] after free = refl
split_space-append (c ∷ before) after (ne, free) =
    rw (==_false c b' ' ne, split_space-append before after free)

-- A text "<name> <value>" whose name has no space is read as the name, cut at 47 characters, with the
-- number that `kstrtoint` finds in the trimmed rest, and refused if that finds none.
pub parse_cfg-append :
    (k : Kernel) (before after : List ℕ)
    → Free b' ' before
    → parse_cfg k (before ++ b' ' ∷ after) ≡ (elim (k.kstrtoint (k.strim after).start) [
      | none ↦ none
      | some value ↦ some (record { name = take 47 before; value = value })
    ])
unfolding parse_cfg
parse_cfg-append k before after free = rw (split_space-append before after free, parse_cfg)
