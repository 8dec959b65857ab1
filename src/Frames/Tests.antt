-- ===== src/Frames/Tests.antt =====
-- Runs of the frame allocator, and the instances of its theorems there.
use mmurtl_rs.Base.{◌≡◌, refl, true, ◌*◌, ◌%◌, ◌&&◌, ◌==◌, ltb, some, arith}
use mmurtl_rs.Frames.{
  Frames, count_free, frame_size, allocate_zeroed_frame, deallocate_frame, claim_range,
  allocate_zeroed_contiguous,
}
use mmurtl_rs.Frames.Counts.{IsValid}
use mmurtl_rs.Frames.Claim.{TakesRun, Claims, allocate_zeroed_contiguous_lem, claim_range_lem}
use mmurtl_rs.Frames.Single.{Allocates, Frees, allocate_zeroed_frame_lem, deallocate_frame_lem}

-- Eight frames: the even ones below 6 are used, and the scan begins at the fourth.
abbrev memory : Frames
memory = record {
  used = λ i. ltb i 6 && (i % 2 == 0);
  zeroed = λ i. i == 1;
  total_frames = 8;
  free_frames = 5;
  last_search = 4;
  clean = λ i. ltb i 4 && (i % 2 == 1);
}

memory-IsValid : IsValid memory
unfolding count_free
memory-IsValid = record {
  covered = omega arith;
  counted = refl;
  zeroed_clean = λ i free zero_bit. ground arith;
  used_unmarked = λ i taken. ground arith;
}

found : (allocate_zeroed_frame memory).0 ≡ some (5 * frame_size)
unfolding allocate_zeroed_frame
found = refl

run_found : (allocate_zeroed_contiguous 3 memory).0 ≡ some (5 * frame_size)
unfolding allocate_zeroed_contiguous
run_found = refl

allocate_zeroed_frame_lem_example : Allocates memory (allocate_zeroed_frame memory)
allocate_zeroed_frame_lem_example = allocate_zeroed_frame_lem memory memory-IsValid

deallocate_frame_lem_example :
    (b : Frames) × (deallocate_frame (4 * frame_size) memory ≡ some b)
    × IsValid b
    × Frees 4 memory b
deallocate_frame_lem_example = deallocate_frame_lem 4 memory memory-IsValid (omega arith)

allocate_zeroed_contiguous_lem_example : TakesRun 3 memory (allocate_zeroed_contiguous 3 memory)
allocate_zeroed_contiguous_lem_example =
    allocate_zeroed_contiguous_lem 3 memory (omega arith) memory-IsValid

claim_range_lem_example : Claims (5 * frame_size) 3 memory (claim_range (5 * frame_size) 3 memory)
claim_range_lem_example = claim_range_lem (5 * frame_size) 3 memory memory-IsValid

claimed : (claim_range (5 * frame_size) 3 memory).0 ≡ true
unfolding claim_range
claimed = refl
