-- ===== src/Spool/Scan.antt =====
-- What the scans of the spool directory find (agent/agent/spool.c: find_file, find_newest_file,
-- find_oldest_file, init_writer).
use yella.Prelude.{
  ℕ, ◌<◌, ◌≡◌, refl, subst, ap, ◌⊎◌, inl, inr, Bool, true, false, [], ◌∷◌, Option, none, some,
  arith, Bool-cases, Option-cases, All, All-mono,
}
use yella.Spool.Files.{
  Pos, Entry, Dir, uint32_max, pos_ltb, cmp_newest, cmp_oldest, spool_pos_of, find_file,
  find_newest_file, find_oldest_file,
}
use yella.Spool.State.{add32}
use yella.Spool.Life.{zero_pos, next_major}

-- A spool file stands at the position.
abbrev pub Present : Pos → Dir → Type 0
Present p [] = ⊥
Present p (e ∷ es) = (spool_pos_of e ≡ some p) ⊎ Present p es

-- What the scan relies on of its comparison.
pub record IsStrict (cmp : Pos → Pos → Bool) : Type 0 where
  pub chain : (r q p : Pos) → cmp r q ≡ true → cmp q p ≡ true → cmp r p ≡ true
  pub lowers : (q r p : Pos) → cmp q p ≡ false → cmp r p ≡ true → cmp q r ≡ false
  pub apart : (p : Pos) → cmp p p ≡ false

pub cmp_newest-IsStrict : IsStrict cmp_newest
unfolding cmp_newest
cmp_newest-IsStrict = record {
  chain = λ r q p h k. ground arith;
  lowers = λ q r p h k. ground arith;
  apart = λ p. ground arith;
}

pub cmp_oldest-IsStrict : (read : Pos) → IsStrict (cmp_oldest read)
unfolding cmp_oldest
cmp_oldest-IsStrict read = record {
  chain = λ r q p h k. ground arith;
  lowers = λ q r p h k. ground arith;
  apart = λ p. ground arith;
}

module _ (cmp : Pos → Pos → Bool) (strict : IsStrict cmp) where
  -- What a scan started at `prev` and `candidate` comes to.
  pub record Extreme (dir : Dir) (prev : Pos) (candidate : Option Pos) (out : Pos × Option Pos)
      : Type 0 where
    pub past : (q : Pos) → cmp q prev ≡ false → cmp q out.0 ≡ false
    pub best : All (λ e. (q : Pos) → spool_pos_of e ≡ some q → cmp q out.0 ≡ false) dir
    pub source :
        ((out.0 ≡ prev) × (out.1 ≡ candidate))
        ⊎ ((out.1 ≡ some out.0) × Present out.0 dir × (cmp out.0 prev ≡ true))

  Extreme-keep :
      (e : Entry) (es : Dir) (prev : Pos) (candidate : Option Pos) (out : Pos × Option Pos)
      → ((q : Pos) → spool_pos_of e ≡ some q → cmp q prev ≡ false)
      → Extreme es prev candidate out
      → Extreme (e ∷ es) prev candidate out
  Extreme-keep e es prev candidate out small x = record {
    past = x.past;
    best = (λ q h. x.past q (small q h), x.best);
    source = elim x.source [ inl s ↦ inl s | inr (a, b, c) ↦ inr (a, inr b, c) ];
  }

  Extreme-move :
      (e : Entry) (es : Dir) (prev found : Pos) (candidate : Option Pos) (out : Pos × Option Pos)
      → spool_pos_of e ≡ some found
      → cmp found prev ≡ true
      → Extreme es found (some found) out
      → Extreme (e ∷ es) prev candidate out
  Extreme-move e es prev found candidate out at better x = record {
    past = λ q h. x.past q (strict.lowers q found prev h better);
    best = (λ q h. x.past q (same q h), x.best);
    source = inr (elim x.source [
      | inl (a, b) ↦ (rw (a, b), inl (rw (a, at)), rw a better)
      | inr (a, b, c) ↦ (a, inr b, strict.chain out.0 found prev c better)
    ]);
  }
    where
      same : (q : Pos) → spool_pos_of e ≡ some q → cmp q found ≡ false
      same q h = let e' : q ≡ found = cc in rw e' (strict.apart found)

  pub find_file-Extreme :
      (dir : Dir) (prev : Pos) (candidate : Option Pos)
      → Extreme dir prev candidate (find_file cmp dir (prev, candidate))
  unfolding find_file
  find_file-Extreme [] prev candidate = record {
    past = λ q h. h;
    best = tt;
    source = inl (refl, refl);
  }
  find_file-Extreme (e ∷ es) prev candidate = elim (Option-cases (spool_pos_of e)) [
    | inl skipped ↦
        rw skipped
          (Extreme-keep e es prev candidate _ (λ q h. cc) (find_file-Extreme es prev candidate))
    | inr (found, at) ↦ rw at (elim (Bool-cases (cmp found prev)) [
      | inl better ↦ rw better (
          Extreme-move e es prev found candidate _ at better
            (find_file-Extreme es found (some found)))
      | inr worse ↦ rw worse (
          Extreme-keep e es prev candidate _ (λ q h. let e' : q ≡ found = cc in rw e' worse)
            (find_file-Extreme es prev candidate))
    ])
  ]

-- No spool file lies after `read` and before `p`.
abbrev pub NoneBetween : Pos → Pos → Entry → Type 0
NoneBetween read p e =
    (q : Pos) → spool_pos_of e ≡ some q → pos_ltb read q ≡ true → pos_ltb q p ≡ false

abbrev pub last_pos : Pos
last_pos = record { major_seq = uint32_max; minor_seq = uint32_max }

best-NoneBetween :
    (read p : Pos) (dir : Dir)
    → All (λ e. (q : Pos) → spool_pos_of e ≡ some q → cmp_oldest read q p ≡ false) dir
    → All (NoneBetween read p) dir
unfolding cmp_oldest
best-NoneBetween read p dir =
    All-mono _ (NoneBetween read p) dir (λ a f q at later. ground (arith, f q at))

later_of_better : (read q prev : Pos) → cmp_oldest read q prev ≡ true → pos_ltb read q ≡ true
unfolding cmp_oldest
later_of_better read q prev h = ground arith

-- The file that the reader goes to next. If `find_oldest_file` finds one, it is a spool file of
-- the directory later than the reader's position, and no later spool file comes before it. If it
-- finds none, no spool file is later than the reader's position, but for the very last position.
pub find_oldest_file_least :
    (read : Pos) (dir : Dir)
    → ((p : Pos)
        → (find_oldest_file read dir).1 ≡ some p
        → Present p dir × (pos_ltb read p ≡ true) × All (NoneBetween read p) dir)
      × ((find_oldest_file read dir).1 ≡ none → All (NoneBetween read last_pos) dir)
unfolding find_oldest_file
find_oldest_file_least read dir =
    let out = find_file (cmp_oldest read) dir (last_pos, none) in
    let x = find_file-Extreme (cmp_oldest read) (cmp_oldest-IsStrict read) dir last_pos none in
    let best = best-NoneBetween read out.0 dir x.best in
    (
      λ p h. elim x.source [
        | inl (u, v) ↦ cc
        | inr (u, v, w) ↦
            (let e : out.0 ≡ p = cc in
              subst (λ t. Present t dir × (pos_ltb read t ≡ true) × All (NoneBetween read t) dir) e
                (v, later_of_better read out.0 last_pos w, best))
      ],
      λ h. elim x.source [
        | inl (u, v) ↦ subst (λ t. All (NoneBetween read t) dir) u best
        | inr (u, v, w) ↦ cc
      ],
    )

-- Every spool file's major sequence number is below a bound.
abbrev pub MajorBelow : ℕ → Entry → Type 0
MajorBelow n e = (q : Pos) → spool_pos_of e ≡ some q → q.major_seq < n

major_below :
    {n : ℕ} (p : Pos) (dir : Dir) → Present p dir → All (MajorBelow n) dir → p.major_seq < n
major_below p [] h b = elim h [ ]
major_below p (e ∷ es) (inl at) b = b.0 p at
major_below p (e ∷ es) (inr h) b = major_below p es h b.1

abbrev major_seq_of : Pos → ℕ
major_seq_of p = p.major_seq

next_major_of_none : (out : Pos × Option Pos) → out.1 ≡ none → next_major out ≡ 1
unfolding next_major
next_major_of_none (p, none) h = refl
next_major_of_none (p, some q) h = cc

next_major_of_some :
    (out : Pos × Option Pos) {q : Pos} → out.1 ≡ some q → next_major out ≡ add32 out.0.major_seq 1
unfolding next_major
next_major_of_some (p, none) h = cc
next_major_of_some (p, some q) h = refl

-- A new writer's major sequence number is above that of every spool file that is in the directory,
-- if those stay below the largest 32-bit number: it never opens a file that is there.
pub next_major-fresh :
    (dir : Dir)
    → All (MajorBelow uint32_max) dir
    → All (MajorBelow (next_major (find_newest_file dir))) dir
unfolding find_newest_file cmp_newest
next_major-fresh dir bounded =
    let out = find_file cmp_newest dir (zero_pos, none) in
    let x = find_file-Extreme cmp_newest cmp_newest-IsStrict dir zero_pos none in
    elim x.source [
      | inl (u, v) ↦ rw (next_major_of_none out v) (
          All-mono _ (MajorBelow 1) dir (λ a f q at. ground (arith, f q at, ap major_seq_of u))
            x.best)
      | inr (u, v, w) ↦
          (let small = major_below out.0 dir v bounded in
            rw (next_major_of_some out u) (
              All-mono _ (MajorBelow (add32 out.0.major_seq 1)) dir
                (λ a f q at. ground (arith, f q at)) x.best))
    ]
