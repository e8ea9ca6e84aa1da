-- ===== src/Expose/Chunks.antt =====
-- The loop of writeData (internal/expose/session.go) and its fuel.
use mutiauk.Base.{ℕ, zero, suc, min, ◌≤◌, ◌≡◌, refl, Bytes, length, take, drop, length-drop, arith}
use mutiauk.Expose.Frame.{frame_data}
use mutiauk.Expose.Session.{Session, write_control, max_data_chunk, write_chunks, write_data}

-- Two runs with fuel for every byte of the slice are the same.
write_chunks_enough :
    (fuel more id : ℕ) (b : Bytes) (s : Session)
    → length b ≤ fuel
    → length b ≤ more
    → write_chunks fuel id b s ≡ write_chunks more id b s
unfolding write_chunks
write_chunks_enough zero zero id b s h k = refl
write_chunks_enough zero (suc more) id b s h k = ground arith
write_chunks_enough (suc fuel) zero id b s h k = ground arith
write_chunks_enough (suc fuel) (suc more) id b s h k =
    ground (arith, write_chunks_enough fuel more id rest s', length-drop n b)
  where
    n : ℕ
    n = min (length b) max_data_chunk

    rest : Bytes
    rest = drop n b

    s' : Session
    s' = (write_control frame_data id (take n b) s).1

-- The loop of writeData has fuel enough: with any fuel that is at least the length of the slice it
-- gives the same.
pub write_data-enough :
    (fuel id : ℕ) (b : Bytes) (s : Session)
    → length b ≤ fuel
    → write_chunks fuel id b s ≡ write_data id b s
unfolding write_data
write_data-enough fuel id b s h = write_chunks_enough fuel (length b) id b s h (omega arith)
