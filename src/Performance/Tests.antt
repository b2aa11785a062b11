-- ===== src/Performance/Tests.antt =====
-- Runs of the programs of content/exercises/c6.
use cppcourse.Base.{◌≡◌, refl, [], ◌∷◌}
use cppcourse.Base.Int.{pos, negsuc}
use cppcourse.Base.Counting.{count}
use cppcourse.Performance.Batcher.{batch_create, batch_pending, batch_push}

counted_twice : count 2 (2 ∷ 0 ∷ 2 ∷ []) ≡ 2
unfolding count
counted_twice = refl

-- An operation that is pushed is not counted.
push_is_dropped : batch_pending (batch_push (batch_create (negsuc 4)) (pos 1)) ≡ pos 0
unfolding batch_pending batch_push batch_create
push_is_dropped = refl
