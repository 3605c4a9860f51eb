-- ===== src/Exclusion/Examples.antt =====
-- An erasure that waits for a worker.
use undelete.Base.{◌≤◌, ◌≡◌, false, [], ◌∷◌}
use undelete.Base.Int.{pos}
use undelete.Base.Rows.{count_where}
use undelete.Exclusion.Guard.{
  free_lock, set_lock, new_guard, shared, waiting, granted, read_lock, grant, System, begin, move,
  start_system, Reach, start, later,
}
use undelete.Exclusion.Refinement.{Turn, Step-Turn}
use undelete.Exclusion.Safety.{is_reader, is_writer, Reach-exclusive}

abbrev worker_reads : System
worker_reads = record {
  guard = set_lock (pos 1) (record { readers = 1; writer = false }) new_guard;
  calls = record { tenant = pos 1; side = shared; phase = granted } ∷ [];
}

-- The worker has its side.
worker_reads-Reach : Reach worker_reads
worker_reads-Reach =
    later (later start (begin start_system (pos 1) shared)) (move [] [] (grant read_lock))

Reach-exclusive_example :
    (count_where (is_writer (pos 1)) worker_reads.calls ≤ 1)
    × (count_where (is_writer (pos 1)) worker_reads.calls ≡ 1
        → count_where (is_reader (pos 1)) worker_reads.calls ≡ 0)
    × (count_where (is_writer (pos 1)) worker_reads.calls ≡ 0
        → count_where (is_reader (pos 1)) worker_reads.calls ≡ 0
        → worker_reads.guard (pos 1) ≡ free_lock)
Reach-exclusive_example = Reach-exclusive worker_reads worker_reads-Reach (pos 1)

abbrev worker_waits : System
worker_waits = record {
  guard = new_guard;
  calls = record { tenant = pos 1; side = shared; phase = waiting } ∷ [];
}

Step-Turn_example :
    Turn
      (count_where (is_reader (pos 1)) worker_waits.calls)
      (count_where (is_writer (pos 1)) worker_waits.calls)
      (count_where (is_reader (pos 1)) worker_reads.calls)
      (count_where (is_writer (pos 1)) worker_reads.calls)
Step-Turn_example =
    Step-Turn worker_waits worker_reads (later start (begin start_system (pos 1) shared))
      (move [] [] (grant read_lock)) (pos 1)
