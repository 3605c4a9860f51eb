-- ===== src/Exclusion/Guard.antt =====
-- bot/internal/tenantexcl/guard.go: a readers/writer lock for each tenant, and the calls that wait
-- for it. The lock is the standard library's: here it may let a reader in whenever no writer holds
-- it, which allows every order that the library allows and more.
use undelete.Base.{ℕ, suc, Bool, true, false, List, [], ◌∷◌, ◌++◌, if◌then◌else◌, ◌==◌}
use undelete.Base.Int.{ℤ, int_comparable}

pub record Lock : Type 0 where
  pub readers : ℕ
  pub writer : Bool

abbrev pub free_lock : Lock
free_lock = record { readers = 0; writer = false }

-- `Guard`; a lock that `forTenant` has not created yet is free.
abbrev pub Guard : Type 0
Guard = ℤ → Lock

abbrev pub set_lock : ℤ → Lock → Guard → Guard
set_lock tenant l g t = if t == tenant then l else g t

-- `New` and `forTenant`.
abbrev pub new_guard : Guard
new_guard t = free_lock

pub data Side : Type 0 where
  shared exclusive : Side

-- How far a call of `acquire` is: its goroutine waits for the lock; the goroutine has it and `done`
-- is closed; the caller has the release function; the context ended, and the goroutine waits or has
-- the lock that it releases next; the lock is released, or was not asked for.
pub data Phase : Type 0 where
  waiting granted held abandoned draining finished : Phase

pub record Call : Type 0 where
  pub tenant : ℤ
  pub side : Side
  pub phase : Phase

-- The goroutine's `lock()` returns.
pub data Acquire : Side → Lock → Lock → Type 0 where
  read_lock :
      {n : ℕ}
      → Acquire shared
          (record { readers = n; writer = false })
          (record { readers = suc n; writer = false })
  write_lock :
      Acquire exclusive
        (record { readers = 0; writer = false })
        (record { readers = 0; writer = true })

-- `RUnlock` and `Unlock`.
pub data Release : Side → Lock → Lock → Type 0 where
  read_unlock :
      {n : ℕ} {b : Bool}
      → Release shared (record { readers = suc n; writer = b }) (record { readers = n; writer = b })
  write_unlock :
      {n : ℕ}
      → Release exclusive
          (record { readers = n; writer = true })
          (record { readers = n; writer = false })

-- One move of a call, with the lock of its tenant.
pub data Move (s : Side) : Lock → Phase → Lock → Phase → Type 0 where
  grant : {l m : Lock} → Acquire s l m → Move s l waiting m granted
  grant_late : {l m : Lock} → Acquire s l m → Move s l abandoned m draining
  return : {l : Lock} → Move s l granted l held
  cancel : {l : Lock} → Move s l waiting l abandoned
  cancel_late : {l : Lock} → Move s l granted l draining
  release : {l m : Lock} → Release s l m → Move s l held m finished
  drain : {l m : Lock} → Release s l m → Move s l draining m finished

pub record System : Type 0 where
  pub guard : Guard
  pub calls : List Call

-- A call comes in, with its context alive or not, or one of the calls moves.
pub data Step : System → System → Type 0 where
  begin :
      (s : System) (tenant : ℤ) (side : Side)
      → Step s (record {
        guard = s.guard;
        calls = s.calls ++ record { tenant = tenant; side = side; phase = waiting } ∷ [];
      })
  refuse :
      (s : System) (tenant : ℤ) (side : Side)
      → Step s (record {
        guard = s.guard;
        calls = s.calls ++ record { tenant = tenant; side = side; phase = finished } ∷ [];
      })
  move :
      {g : Guard} (before after : List Call) {tenant : ℤ} {side : Side} {p q : Phase} {l : Lock}
      → Move side (g tenant) p l q
      → Step
          (record {
            guard = g;
            calls = before ++ record { tenant = tenant; side = side; phase = p } ∷ after;
          })
          (record {
            guard = set_lock tenant l g;
            calls = before ++ record { tenant = tenant; side = side; phase = q } ∷ after;
          })

abbrev pub start_system : System
start_system = record { guard = new_guard; calls = [] }

pub data Reach : System → Type 0 where
  start : Reach start_system
  later : {s t : System} → Reach s → Step s t → Reach t
