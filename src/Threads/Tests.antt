-- ===== src/Threads/Tests.antt =====
-- Two threads that contend for one device behind a mutex.
use vm_device.Prelude.{
  ℕ, ◌≡◌, ◌+◌, ◌%◌, ◌≤◌, ◌↔◌, refl, List, [], ◌∷◌, none, Outcome, done, false, arith,
}
use vm_device.Device.Dummy.{DummyDevice}
use vm_device.Device.Mutex.{World}
use vm_device.Threads.{
  Body, idle, inside, System, Move, acquire, advance, release, calls, moves, Reach, start, later,
}
use vm_device.Threads.Invariant.{Agrees, replay}
use vm_device.Threads.Sequential.{threads_sequential}
use vm_device.Threads.Progress.{total, Moves, here, next, Moves-ends, settles}

abbrev world : World DummyDevice
world _ = record { poisoned = false; inner = record { config = 0x1234 } }

-- A write of the lowest byte, and a read of two bytes, one at a step.
abbrev set_low : DummyDevice → Outcome ℕ × DummyDevice
set_low d = (done 0, record { config = 7 })

abbrev get_low : DummyDevice → Outcome ℕ × DummyDevice
get_low d = (done (d.config % 256), d)

abbrev writes : Body DummyDevice ℕ
writes = set_low ∷ []

abbrev reads : Body DummyDevice ℕ
reads = get_low ∷ get_low ∷ []

-- The first thread has the guard, and the second waits.
abbrev contended : (s : System DummyDevice ℕ) × Reach 2 world s
contended = (
  _,
  later
      (later (later start (calls 0 5 reads (omega arith) refl))
        (calls 1 5 writes (omega arith) refl))
      (moves (acquire 0 5 reads (omega arith) refl refl refl)),
)

-- The first thread reads its bytes and releases the lock.
abbrev finished : (s : System DummyDevice ℕ) × Reach 2 world s
finished = (
  _,
  later
      (later
        (later contended.1 (
          moves (
            advance 0 5 reads [] get_low (get_low ∷ []) 0x34 (record { config = 0x1234 })
              (omega arith) refl refl)))
        (moves (
          advance 0 5 reads (0x34 ∷ []) get_low [] 0x34 (record { config = 0x1234 }) (omega arith)
            refl refl)))
      (moves (release 0 5 reads (0x34 ∷ 0x34 ∷ []) (omega arith) refl)),
)

threads_sequential_example :
    Agrees world finished.0.log
    × ((p : ℕ) → finished.0.holder p ≡ none → finished.0.mem p ≡ replay world finished.0.log p)
    × ((i j p : ℕ) (b c : Body DummyDevice ℕ) (xs ys : List ℕ) (fs gs : Body DummyDevice ℕ)
        → finished.0.pc i ≡ inside p b xs fs
        → finished.0.pc j ≡ inside p c ys gs
        → i ≡ j)
threads_sequential_example = threads_sequential finished.1

-- The first thread goes on, and then the second, which waits.
settles_example :
    (k : ℕ) × (t : System DummyDevice ℕ) × Moves 2 contended.0 k t
    × ((i : ℕ) → t.pc i ≡ idle)
    × ((p : ℕ) → t.holder p ≡ none)
settles_example = settles contended.1

-- The two steps of the read and the release use up what the first thread had left.
abbrev three_moves : Moves 2 contended.0 3 finished.0
three_moves =
    next
      (next
        (next here (
          advance 0 5 reads [] get_low (get_low ∷ []) 0x34 (record { config = 0x1234 })
            (omega arith) refl refl))
        (advance 0 5 reads (0x34 ∷ []) get_low [] 0x34 (record { config = 0x1234 }) (omega arith)
          refl refl))
      (release 0 5 reads (0x34 ∷ 0x34 ∷ []) (omega arith) refl)

-- The other thread still waits, so the steps can go on.
Moves-ends_example :
    (3 + 3 ≤ 6)
    × (((u : System DummyDevice ℕ) → ¬ Move 2 finished.0 u)
        ↔ (((i : ℕ) → finished.0.pc i ≡ idle) × ((p : ℕ) → finished.0.holder p ≡ none)))
unfolding total
Moves-ends_example = Moves-ends 3 contended.1 three_moves
