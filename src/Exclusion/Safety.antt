-- ===== src/Exclusion/Safety.antt =====
-- The exclusion that Guard gives.
use undelete.Base.{
  ℕ, suc, ◌≤◌, ◌≡◌, refl, sym, ap, subst, ◌∙◌, Bool, true, false, ◌&&◌, List, [], ◌∷◌, ◌++◌,
  if◌then◌else◌, ◌==◌, arith, Bool-cases, inl, inr, ==-refl,
}
use undelete.Base.Int.{ℤ, int_comparable, int_beq_iff}
use undelete.Base.Rows.{count_where, count-append}
use undelete.Exclusion.Guard.{
  Lock, free_lock, Guard, Side, shared, exclusive, Phase, waiting, granted, held, abandoned,
  draining, finished, Call, Acquire, read_lock, write_lock, Release, read_unlock, write_unlock,
  Move, grant, grant_late, return, cancel, cancel_late, release, drain, System, Step, begin, refuse,
  move, Reach, start, later,
}

-- The calls that have the lock.
abbrev pub has_lock : Phase → Bool
has_lock waiting = false
has_lock granted = true
has_lock held = true
has_lock abandoned = false
has_lock draining = true
has_lock finished = false

abbrev pub is_shared : Side → Bool
is_shared shared = true
is_shared exclusive = false

abbrev pub is_exclusive : Side → Bool
is_exclusive shared = false
is_exclusive exclusive = true

abbrev pub is_reader : ℤ → Call → Bool
is_reader t c = (t == c.tenant) && (has_lock c.phase && is_shared c.side)

abbrev pub is_writer : ℤ → Call → Bool
is_writer t c = (t == c.tenant) && (has_lock c.phase && is_exclusive c.side)

abbrev as_number : Bool → ℕ
as_number b = if b then 1 else 0

abbrev pub plus_if : Bool → ℕ → ℕ
plus_if b n = if b then suc n else n

-- The lock of a tenant counts the calls that have it.
pub record Counted (l : Lock) (readers writers : ℕ) : Type 0 where
  pub read : l.readers ≡ readers
  pub written : as_number l.writer ≡ writers
  pub apart : l.writer ≡ true → l.readers ≡ 0

abbrev Inv : System → Type 0
Inv s =
    (t : ℤ)
    → Counted (s.guard t) (count_where (is_reader t) s.calls) (count_where (is_writer t) s.calls)

pub count-middle :
    (q : Call → Bool) (before after : List Call) (c : Call)
    → count_where q (before ++ c ∷ after) ≡ plus_if (q c) (count_where q (before ++ after))
count-middle q [] after c = ground arith
count-middle q (b ∷ before) after c = ground (arith, count-middle q before after c)

Acquire-Counted :
    (side : Side) (l m : Lock) (readers writers : ℕ)
    → Acquire side l m
    → Counted l readers writers
    → Counted m (plus_if (is_shared side) readers) (plus_if (is_exclusive side) writers)
Acquire-Counted _ _ _ readers writers read_lock h = record {
  read = ap suc h.read;
  written = h.written;
  apart = λ e. cc;
}
Acquire-Counted _ _ _ readers writers write_lock h = record {
  read = h.read;
  written = ap suc h.written;
  apart = λ e. refl;
}

Release-Counted :
    (side : Side) (l m : Lock) (readers writers : ℕ)
    → Release side l m
    → Counted l (plus_if (is_shared side) readers) (plus_if (is_exclusive side) writers)
    → Counted m readers writers
Release-Counted _ _ _ readers writers read_unlock h = record {
  read = omega (arith, h.read);
  written = h.written;
  apart = λ e. absurd (omega (arith, h.apart e));
}
Release-Counted _ _ _ readers writers write_unlock h = record {
  read = h.read;
  written = omega (arith, h.written);
  apart = λ e. cc;
}

-- Of one tenant's lock, a move changes the counts of its caller only.
Move-Counted :
    (side : Side) (p q : Phase) (l m : Lock) (readers writers : ℕ)
    → Move side l p m q
    → Counted l
        (plus_if (has_lock p && is_shared side) readers)
        (plus_if (has_lock p && is_exclusive side) writers)
    → Counted m
        (plus_if (has_lock q && is_shared side) readers)
        (plus_if (has_lock q && is_exclusive side) writers)
Move-Counted side _ _ l m readers writers (grant a) h = Acquire-Counted side l m readers writers a h
Move-Counted side _ _ l m readers writers (grant_late a) h =
    Acquire-Counted side l m readers writers a h
Move-Counted side _ _ l m readers writers return h = h
Move-Counted side _ _ l m readers writers cancel h = h
Move-Counted side _ _ l m readers writers cancel_late h = h
Move-Counted side _ _ l m readers writers (release a) h =
    Release-Counted side l m readers writers a h
Move-Counted side _ _ l m readers writers (drain a) h = Release-Counted side l m readers writers a h

-- A call of another tenant, or without the lock, is not counted.
pub count-idle :
    (q : Call → Bool) (calls : List Call) (c : Call)
    → q c ≡ false
    → count_where q (calls ++ c ∷ []) ≡ count_where q calls
count-idle q calls c e = rw (count-append q calls c, e) (omega arith)

append-Counted :
    (l : Lock) (t : ℤ) (calls : List Call) (c : Call)
    → has_lock c.phase ≡ false
    → Counted l (count_where (is_reader t) calls) (count_where (is_writer t) calls)
    → Counted l
        (count_where (is_reader t) (calls ++ c ∷ []))
        (count_where (is_writer t) (calls ++ c ∷ []))
append-Counted l t calls c e h =
    let no_reader : is_reader t c ≡ false = ground (arith, e) in
    let no_writer : is_writer t c ≡ false = ground (arith, e) in
    rw (count-idle (is_reader t) calls c no_reader, count-idle (is_writer t) calls c no_writer) h

Step-Inv : (s t : System) → Step s t → Inv s → Inv t
Step-Inv _ _ (begin s tenant side) h = λ t. append-Counted (s.guard t) t s.calls _ refl (h t)
Step-Inv _ _ (refuse s tenant side) h = λ t. append-Counted (s.guard t) t s.calls _ refl (h t)
Step-Inv _ _ (move {g} before after {tenant} {side} {p} {q} {l} mv) h = λ t.
    let old : Call = record { tenant = tenant; side = side; phase = p } in
    let new : Call = record { tenant = tenant; side = side; phase = q } in
    let was = h t in
    let apart =
      rw (count-middle (is_reader t) before after old, count-middle (is_writer t) before after old)
        at was in
    rw (count-middle (is_reader t) before after new, count-middle (is_writer t) before after new)
      (elim (Bool-cases (t == tenant)) [
        | inr other ↦ rw other (rw other at apart)
        | inl same ↦
            let equal = (int_beq_iff t tenant).0 same in
            let mine = rw same at apart in
            rw same (
              Move-Counted side p q (g tenant) l _ _ mv (
                subst
                  (λ (x : ℤ).
                    Counted (g x)
                      (plus_if (has_lock p && is_shared side)
                        (count_where (is_reader t) (before ++ after)))
                      (plus_if (has_lock p && is_exclusive side)
                        (count_where (is_writer t) (before ++ after))))
                  equal mine))
      ])

pub Reach-Inv : (s : System) → Reach s → Inv s
Reach-Inv _ start = λ t. record { read = refl; written = refl; apart = λ e. refl }
Reach-Inv _ (later {s} {t} r step) = Step-Inv s t step (Reach-Inv s r)

lock-same :
    (l : Lock) (n : ℕ) (b : Bool)
    → l.readers ≡ n
    → l.writer ≡ b
    → l ≡ record { readers = n; writer = b }
lock-same l n b e f = rw (sym e, sym f) refl

Counted-exclusive :
    (l : Lock) (readers writers : ℕ)
    → Counted l readers writers
    → (writers ≤ 1) × (writers ≡ 1 → readers ≡ 0) × (writers ≡ 0 → readers ≡ 0 → l ≡ free_lock)
Counted-exclusive l readers writers h = elim (Bool-cases l.writer) [
  | inl e ↦
      let one : 1 ≡ writers = rw e at h.written in
      (omega (arith, one), λ w. sym h.read ∙ h.apart e, λ w r. absurd (omega (arith, one, w)))
  | inr e ↦
      let zero_writers : 0 ≡ writers = rw e at h.written in
      (
        omega (arith, zero_writers),
        λ w. absurd (omega (arith, zero_writers, w)),
        λ w r. lock-same l 0 false (h.read ∙ r) e,
      )
]

Counted-releases :
    (side : Side) (l : Lock) (readers writers : ℕ)
    → Counted l (plus_if (is_shared side) readers) (plus_if (is_exclusive side) writers)
    → (m : Lock) × Release side l m
Counted-releases shared l readers writers h =
    subst (λ (x : Lock). (m : Lock) × Release shared x m)
      (sym (lock-same l (suc readers) l.writer h.read refl))
      (record { readers = readers; writer = l.writer }, read_unlock)
Counted-releases exclusive l readers writers h = elim (Bool-cases l.writer) [
  | inl e ↦
      subst (λ (x : Lock). (m : Lock) × Release exclusive x m)
        (sym (lock-same l l.readers true refl e))
        (record { readers = l.readers; writer = false }, write_unlock)
  | inr e ↦
      let none_written : 0 ≡ suc writers = rw e at h.written in absurd (omega (arith, none_written))
]

-- However the calls of the guard are interleaved and cancelled, at most one has the write side of
-- a tenant, and while one has it no call has the read side; a tenant's lock of which no call has a
-- side is free, so that a cancelled call leaves nothing locked.
pub Reach-exclusive :
    (s : System)
    → Reach s
    → (t : ℤ)
    → (count_where (is_writer t) s.calls ≤ 1)
      × (count_where (is_writer t) s.calls ≡ 1 → count_where (is_reader t) s.calls ≡ 0)
      × (count_where (is_writer t) s.calls ≡ 0
          → count_where (is_reader t) s.calls ≡ 0
          → s.guard t ≡ free_lock)
Reach-exclusive s r t =
    Counted-exclusive (s.guard t) (count_where (is_reader t) s.calls)
      (count_where (is_writer t) s.calls) (Reach-Inv s r t)

-- A call that has a side of its tenant's lock can always release it: the lock is in the state that
-- its unlock asks for.
pub Reach-releases :
    (before after : List Call) (c : Call) (g : Guard)
    → Reach (record { guard = g; calls = before ++ c ∷ after })
    → has_lock c.phase ≡ true
    → (l : Lock) × Release c.side (g c.tenant) l
Reach-releases before after c g r h =
    let was = Reach-Inv _ r c.tenant in
    let apart =
      rw
        (
          count-middle (is_reader c.tenant) before after c,
          count-middle (is_writer c.tenant) before after c,
          ==-refl c.tenant,
          h,
        )
        at was in
    Counted-releases c.side (g c.tenant) (count_where (is_reader c.tenant) (before ++ after))
      (count_where (is_writer c.tenant) (before ++ after)) apart
