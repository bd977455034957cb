-- ===== src/Concurrent/RwLock/Exclusion.antt =====
-- The lock of src/tinydb/concurrent/rwlock.py over any interleaving of its calls.
use tinydb.Base.{
  ℕ, zero, suc, ◌+◌, ◌-◌, ◌≤◌, ◌≡◌, ◌≢◌, refl, sym, ◌∙◌, Bool, true, none, some, List, [], ◌∷◌,
  ◌==◌, if◌then◌else◌, get_elem?, set, replicate, ok, arith, ◌↔◌,
}
use tinydb.Concurrent.RwLock.{
  RwLock, new, is_writer_held, try_read, release_read, enter_write, try_write, give_up, is_owner,
  release_write, Status, idle, reading, waiting, writing, System, Step, acquire_read, done_read,
  ask_write, acquire_write, time_out, done_write, Reachable, begin, next,
}

abbrev reads : Status → ℕ
reads reading = 1
reads idle = 0
reads waiting = 0
reads writing = 0

abbrev waits : Status → ℕ
waits waiting = 1
waits idle = 0
waits reading = 0
waits writing = 0

abbrev writes : Status → ℕ
writes writing = 1
writes idle = 0
writes reading = 0
writes waiting = 0

abbrev sum : (Status → ℕ) → List Status → ℕ
sum f [] = 0
sum f (q ∷ l) = f q + sum f l

get_elem?-set :
    (l : List Status) (i j : ℕ) (q old : Status)
    → get_elem? l i ≡ some old
    → get_elem? (set l i q) j ≡ (if i == j then some q else get_elem? l j)
unfolding get_elem? set
get_elem?-set [] i j q old h = absurd (cc)
get_elem?-set (x ∷ l) zero zero q old h = refl
get_elem?-set (x ∷ l) zero (suc j) q old h = ground arith
get_elem?-set (x ∷ l) (suc i) zero q old h = ground arith
get_elem?-set (x ∷ l) (suc i) (suc j) q old h = ground (arith, get_elem?-set l i j q old h)

sum-set :
    (f : Status → ℕ) (l : List Status) (i : ℕ) (q old : Status)
    → get_elem? l i ≡ some old
    → sum f (set l i q) + f old ≡ sum f l + f q
unfolding get_elem? set
sum-set f [] i q old h = absurd (cc)
sum-set f (x ∷ l) zero q old h = let e : x ≡ old = cc in rw e (omega arith)
sum-set f (x ∷ l) (suc i) q old h = omega (arith, sum-set f l i q old h)

sum_member :
    (f : Status → ℕ) (l : List Status) (i : ℕ) (q : Status) → get_elem? l i ≡ some q → f q ≤ sum f l
unfolding get_elem?
sum_member f [] i q h = absurd (cc)
sum_member f (x ∷ l) zero q h = let e : x ≡ q = cc in rw (← e) (omega arith)
sum_member f (x ∷ l) (suc i) q h = omega (arith, sum_member f l i q h)

sum_idle : (f : Status → ℕ) (n : ℕ) → f idle ≡ 0 → sum f (replicate n idle) ≡ 0
unfolding replicate
sum_idle f zero z = refl
sum_idle f (suc n) z = omega (arith, sum_idle f n z)

none_writes : (n t : ℕ) → get_elem? (replicate n idle) t ≢ some writing
unfolding replicate get_elem?
none_writes zero t h = cc
none_writes (suc n) zero h = cc
none_writes (suc n) (suc t) h = none_writes n t h

-- The counters count the threads, and the writer is the one thread that writes.
pub record IsCoherent (s : System) : Type 0 where
  pub readers : s.lock.readers ≡ sum reads s.threads
  pub waiting : s.lock.writers_waiting ≡ sum waits s.threads
  pub owner : (t : ℕ) → (get_elem? s.threads t ≡ some writing) ↔ (s.lock.writer ≡ some t)
  pub exclusive : is_writer_held s.lock ≡ true → s.lock.readers ≡ 0

-- A thread that moves from `old` to `q` while the lock becomes `l`, with the counters and the owner
-- changed to fit.
moved-IsCoherent :
    (s : System) (t : ℕ) (l : RwLock) (old q : Status)
    → IsCoherent s
    → get_elem? s.threads t ≡ some old
    → l.readers + reads old ≡ s.lock.readers + reads q
    → l.writers_waiting + waits old ≡ s.lock.writers_waiting + waits q
    → ((u : ℕ) → (get_elem? (set s.threads t q) u ≡ some writing) ↔ (l.writer ≡ some u))
    → (is_writer_held l ≡ true → l.readers ≡ 0)
    → IsCoherent (record { lock = l; threads = set s.threads t q })
moved-IsCoherent s t l old q h at r w o x =
    let sr = sum-set reads s.threads t q old at in
    let sw = sum-set waits s.threads t q old at in
    record {
      readers = omega (arith, h.readers, r, sr);
      waiting = omega (arith, h.waiting, w, sw);
      owner = o;
      exclusive = x;
    }

Step-IsCoherent : (s s' : System) → Step s s' → IsCoherent s → IsCoherent s'
unfolding try_read release_read enter_write try_write give_up is_owner release_write is_writer_held
Step-IsCoherent _ _ (acquire_read s t l at e) h =
    moved-IsCoherent s t l idle reading h at (ground (arith, e)) (ground (arith, e))
      (λ u. ground (arith, e, get_elem?-set s.threads t u reading idle at, h.owner u, at))
      (ground (arith, e))
Step-IsCoherent _ _ (done_read s t l at e) h =
    moved-IsCoherent s t l reading idle h at (ground (arith, e)) (ground (arith, e))
      (λ u. ground (arith, e, get_elem?-set s.threads t u idle reading at, h.owner u, at))
      (ground (arith, e, h.exclusive))
Step-IsCoherent _ _ (ask_write s t at) h =
    moved-IsCoherent s t (enter_write s.lock) idle waiting h at (omega arith) (omega arith)
      (λ u. ground (arith, get_elem?-set s.threads t u waiting idle at, h.owner u, at)) h.exclusive
Step-IsCoherent _ _ (acquire_write s t l at e) h =
    moved-IsCoherent s t l waiting writing h at (ground (arith, e))
      (ground (arith, e, h.waiting, sum_member waits s.threads t waiting at))
      (λ u. ground (arith, e, get_elem?-set s.threads t u writing waiting at, h.owner u, at))
      (ground (arith, e))
Step-IsCoherent _ _ (time_out s t at) h =
    moved-IsCoherent s t (give_up s.lock) waiting idle h at (omega arith)
      (omega (arith, h.waiting, sum_member waits s.threads t waiting at))
      (λ u. ground (arith, get_elem?-set s.threads t u idle waiting at, h.owner u, at)) h.exclusive
Step-IsCoherent _ _ (done_write s t l at e) h =
    moved-IsCoherent s t l writing idle h at (ground (arith, e)) (ground (arith, e))
      (λ u.
        ground (arith, e, get_elem?-set s.threads t u idle writing at, h.owner u, h.owner t, at))
      (ground (arith, e))

coherent : (prefer : Bool) (n : ℕ) (s : System) → Reachable prefer n s → IsCoherent s
unfolding new is_writer_held
coherent prefer n _ begin = record {
  readers = sym (sum_idle reads n refl);
  waiting = sym (sum_idle waits n refl);
  owner = λ t. ground (arith, none_writes n t);
  exclusive = λ h. refl;
}
coherent prefer n _ (next s s' r step) = Step-IsCoherent s s' step (coherent prefer n s r)

Step-prefer_writer : (s s' : System) → Step s s' → s'.lock.prefer_writer ≡ s.lock.prefer_writer
unfolding try_read release_read enter_write try_write give_up release_write
Step-prefer_writer _ _ (acquire_read s t l at e) = ground (arith, e)
Step-prefer_writer _ _ (done_read s t l at e) = ground (arith, e)
Step-prefer_writer _ _ (ask_write s t at) = refl
Step-prefer_writer _ _ (acquire_write s t l at e) = ground (arith, e)
Step-prefer_writer _ _ (time_out s t at) = refl
Step-prefer_writer _ _ (done_write s t l at e) = ground (arith, e)

keeps_preference :
    (prefer : Bool) (n : ℕ) (s : System) → Reachable prefer n s → s.lock.prefer_writer ≡ prefer
unfolding new
keeps_preference prefer n _ begin = refl
keeps_preference prefer n _ (next s s' r step) =
    Step-prefer_writer s s' step ∙ keeps_preference prefer n s r

-- In every state that the threads reach, while a thread holds the write lock no other thread holds
-- the read lock or the write lock.
pub mutual_exclusion :
    (prefer : Bool) (n : ℕ) (s : System) (t u : ℕ)
    → Reachable prefer n s
    → get_elem? s.threads t ≡ some writing
    → u ≢ t
    → (get_elem? s.threads u ≢ some reading) × (get_elem? s.threads u ≢ some writing)
mutual_exclusion prefer n s t u r at other =
    let h = coherent prefer n s r in
    let owned : s.lock.writer ≡ some t = (h.owner t).0 at in
    let held : is_writer_held s.lock ≡ true = unfold is_writer_held in ground (arith, owned) in
    let none_reads : s.lock.readers ≡ 0 = h.exclusive held in
    (
      λ e. absurd (omega (arith, h.readers, none_reads, sum_member reads s.threads u reading e)),
      λ e. let also : s.lock.writer ≡ some u = (h.owner u).0 e in other (cc),
    )

-- In every state that the threads reach, a thread that holds the read lock can release it: the check
-- of `release_read` passes.
pub release_read_returns :
    (prefer : Bool) (n : ℕ) (s : System) (t : ℕ)
    → Reachable prefer n s
    → get_elem? s.threads t ≡ some reading
    → release_read s.lock ≡ ok (record s.lock { readers = s.lock.readers - 1 })
unfolding release_read
release_read_returns prefer n s t r at =
    let h = coherent prefer n s r in
    ground (arith, h.readers, h.exclusive, sum_member reads s.threads t reading at)

-- In every state that the threads reach, a thread that holds the write lock can release it: the check
-- of `release_write` passes.
pub release_write_returns :
    (prefer : Bool) (n : ℕ) (s : System) (t : ℕ)
    → Reachable prefer n s
    → get_elem? s.threads t ≡ some writing
    → release_write t s.lock ≡ ok (record s.lock { writer = none })
unfolding release_write is_owner
release_write_returns prefer n s t r at =
    let owned : s.lock.writer ≡ some t = ((coherent prefer n s r).owner t).0 at in
    ground (arith, owned)

-- In every state that the threads reach with writer preference, while a thread waits for the write
-- lock no thread can take the read lock.
pub writer_preference :
    (n : ℕ) (s : System) (t : ℕ)
    → Reachable true n s
    → get_elem? s.threads t ≡ some waiting
    → try_read s.lock ≡ none
unfolding try_read
writer_preference n s t r at =
    let h = coherent true n s r in
    ground (arith, keeps_preference true n s r, h.waiting, sum_member waits s.threads t waiting at)
