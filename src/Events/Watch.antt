-- ===== src/Events/Watch.antt =====
-- content/exercises/c4/05-signalfd-counter/starter.cpp and content/exercises/c4/06-inotify-dirwatch/starter.cpp, as
-- they stand. A name is the list of its bytes.
use cppcourse.Base.{ℕ, ◌==◌, ◌&&◌, ◌||◌, Bool, true, false, List, [], ◌∷◌, length, if◌then◌else◌}
use cppcourse.Base.Int.{ℤ, pos, negsuc, ltb_ℤ, to_int}

-- With what `counts` holds afterwards.
unfoldable pub sig_drain : ℤ → List ℤ → ℤ → List ℤ × ℤ
sig_drain sfd counts counts_len = (counts, negsuc 0)

-- `fd_` and the names in `model_`.
pub record DirWatch : Type 0 where
  pub fd : ℤ
  pub model : List (List ℕ)

unfoldable pub dw_create : DirWatch
dw_create = record { fd = negsuc 0; model = [] }

unfoldable pub init : List ℕ → DirWatch → DirWatch × ℤ
init path w = (w, negsuc 0)

unfoldable pub process : ℤ → DirWatch → DirWatch
process timeout_ms w = w

abbrev pub same_name : List ℕ → List ℕ → Bool
same_name [] [] = true
same_name [] (y ∷ ys) = false
same_name (x ∷ xs) [] = false
same_name (x ∷ xs) (y ∷ ys) = x == y && same_name xs ys

abbrev pub has_name : List ℕ → List (List ℕ) → Bool
has_name n [] = false
has_name n (m ∷ ms) = same_name n m || has_name n ms

unfoldable pub contains : List ℕ → DirWatch → ℤ
contains name w = if has_name name w.model then pos 1 else pos 0

unfoldable pub count : DirWatch → ℤ
count w = to_int (length w.model)

-- `~DirWatch()`: the descriptor that it closes, if any.
unfoldable pub dw_destroy : DirWatch → List ℤ
dw_destroy w = if ltb_ℤ w.fd (pos 0) then [] else w.fd ∷ []

unfoldable pub dw_init : DirWatch → List ℕ → DirWatch × ℤ
dw_init w path = init path w

unfoldable pub dw_process : DirWatch → ℤ → DirWatch
dw_process w timeout_ms = process timeout_ms w

unfoldable pub dw_contains : DirWatch → List ℕ → ℤ
dw_contains w name = contains name w

unfoldable pub dw_count : DirWatch → ℤ
dw_count w = count w
