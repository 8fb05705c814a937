-- ===== src/SequenceBuffer/Tests.antt =====
-- Runs of the circular buffer of gbnet/src/reliability.rs.
use gbnet.Prelude.{ℕ, ◌≡◌, refl, some, arith}
use gbnet.SequenceBuffer.{SequenceBuffer, new, insert, get}
use gbnet.SequenceBuffer.Window.{get-insert}

abbrev empty : SequenceBuffer ℕ
empty = new 256

get-insert_example : (get (insert empty 3 7) 3 ≡ some 7) × (get (insert empty 3 7) 0 ≡ get empty 0)
unfolding new
get-insert_example =
    get-insert 0 0 3 empty 7 (refl, refl) refl (omega arith) (omega arith) (omega arith)
      (omega arith) (λ e. absurd (omega arith))
