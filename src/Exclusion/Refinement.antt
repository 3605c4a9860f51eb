-- ===== src/Exclusion/Refinement.antt =====
-- The calls of Guard as one lock that readers and a writer enter and leave.
use undelete.Base.{
  ℕ, suc, ◌≡◌, refl, sym, subst, ◌∙◌, false, ◌&&◌, List, [], ◌∷◌, ◌++◌, ◌==◌, arith, Bool-cases,
  inl, inr,
}
use undelete.Base.Int.{ℤ, int_comparable, int_beq_iff}
use undelete.Base.Rows.{count_where}
use undelete.Exclusion.Guard.{
  Lock, Side, Phase, Call, Acquire, read_lock, write_lock, Release, read_unlock, write_unlock, Move,
  grant, grant_late, return, cancel, cancel_late, release, drain, System, Step, begin, refuse, move,
  Reach,
}
use undelete.Exclusion.Safety.{
  has_lock, is_shared, is_exclusive, is_reader, is_writer, plus_if, Counted, count-middle,
  count-idle, Reach-Inv,
}

-- The specification: how many readers and writers are in, and who may come and go.
pub data Turn : ℕ → ℕ → ℕ → ℕ → Type 0 where
  stay : {r w : ℕ} → Turn r w r w
  reader_in : {r : ℕ} → Turn r 0 (suc r) 0
  reader_out : {r w : ℕ} → Turn (suc r) w r w
  writer_in : Turn 0 0 0 1
  writer_out : Turn 0 1 0 0

Acquire-Turn :
    (side : Side) (l m : Lock) (r w : ℕ)
    → Acquire side l m
    → Counted l r w
    → Turn r w (plus_if (is_shared side) r) (plus_if (is_exclusive side) w)
Acquire-Turn _ _ _ r w read_lock h = subst (λ (n : ℕ). Turn r n (suc r) n) h.written reader_in
Acquire-Turn _ _ _ r w write_lock h =
    subst (λ (n : ℕ). Turn n w n (suc w)) h.read
      (subst (λ (n : ℕ). Turn 0 n 0 (suc n)) h.written writer_in)

Release-Turn :
    (side : Side) (l m : Lock) (r w : ℕ)
    → Release side l m
    → Counted l (plus_if (is_shared side) r) (plus_if (is_exclusive side) w)
    → Turn (plus_if (is_shared side) r) (plus_if (is_exclusive side) w) r w
Release-Turn _ _ _ r w read_unlock h = reader_out
Release-Turn _ _ _ r w (write_unlock {n}) h =
    let none_left : 0 ≡ w = omega (arith, h.written) in
    let no_reader : 0 ≡ r = sym (h.apart refl) ∙ h.read in
    subst (λ (k : ℕ). Turn k (suc w) k w) no_reader
      (subst (λ (k : ℕ). Turn 0 (suc k) 0 k) none_left writer_out)

Move-Turn :
    (side : Side) (p q : Phase) (l m : Lock) (r w : ℕ)
    → Move side l p m q
    → Counted l
        (plus_if (has_lock p && is_shared side) r)
        (plus_if (has_lock p && is_exclusive side) w)
    → Turn
        (plus_if (has_lock p && is_shared side) r)
        (plus_if (has_lock p && is_exclusive side) w)
        (plus_if (has_lock q && is_shared side) r)
        (plus_if (has_lock q && is_exclusive side) w)
Move-Turn side _ _ l m r w (grant a) h = Acquire-Turn side l m r w a h
Move-Turn side _ _ l m r w (grant_late a) h = Acquire-Turn side l m r w a h
Move-Turn side _ _ l m r w return h = stay
Move-Turn side _ _ l m r w cancel h = stay
Move-Turn side _ _ l m r w cancel_late h = stay
Move-Turn side _ _ l m r w (release a) h = Release-Turn side l m r w a h
Move-Turn side _ _ l m r w (drain a) h = Release-Turn side l m r w a h

idle-Turn :
    (t : ℤ) (calls : List Call) (c : Call)
    → has_lock c.phase ≡ false
    → Turn
        (count_where (is_reader t) calls)
        (count_where (is_writer t) calls)
        (count_where (is_reader t) (calls ++ c ∷ []))
        (count_where (is_writer t) (calls ++ c ∷ []))
idle-Turn t calls c e =
    let no_reader : is_reader t c ≡ false = ground (arith, e) in
    let no_writer : is_writer t c ≡ false = ground (arith, e) in
    rw (count-idle (is_reader t) calls c no_reader, count-idle (is_writer t) calls c no_writer) stay

-- Every step of the guard is, for each tenant, a turn of the specified lock or leaves who is in
-- unchanged: a reader comes in only when no writer is, and a writer only when nobody is.
pub Step-Turn :
    (s u : System)
    → Reach s
    → Step s u
    → (t : ℤ)
    → Turn
        (count_where (is_reader t) s.calls)
        (count_where (is_writer t) s.calls)
        (count_where (is_reader t) u.calls)
        (count_where (is_writer t) u.calls)
Step-Turn _ _ r (begin s tenant side) = λ t. idle-Turn t s.calls _ refl
Step-Turn _ _ r (refuse s tenant side) = λ t. idle-Turn t s.calls _ refl
Step-Turn _ _ r (move {g} before after {tenant} {side} {p} {q} {l} mv) = λ t.
    let old : Call = record { tenant = tenant; side = side; phase = p } in
    let new : Call = record { tenant = tenant; side = side; phase = q } in
    let was = Reach-Inv _ r t in
    let apart =
      rw (count-middle (is_reader t) before after old, count-middle (is_writer t) before after old)
        at was in
    rw
      (
        count-middle (is_reader t) before after old,
        count-middle (is_writer t) before after old,
        count-middle (is_reader t) before after new,
        count-middle (is_writer t) before after new,
      )
      (elim (Bool-cases (t == tenant)) [
        | inr other ↦ rw other stay
        | inl same ↦
            let equal = (int_beq_iff t tenant).0 same in
            let mine = rw same at apart in
            rw same (
              Move-Turn side p q (g tenant) l _ _ mv (
                subst
                  (λ (x : ℤ).
                    Counted (g x)
                      (plus_if (has_lock p && is_shared side)
                        (count_where (is_reader t) (before ++ after)))
                      (plus_if (has_lock p && is_exclusive side)
                        (count_where (is_writer t) (before ++ after))))
                  equal mine))
      ])
