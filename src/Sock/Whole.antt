-- ===== src/Sock/Whole.antt =====
-- `writev_full` and `writev_full_ms`: what they write, and what they return.
use Prim.Native.Nat.{min}
use rfx.SendQueue.{Errno, eintr, eagain}
use rfx.Prelude.{
  ◌+◌, ◌%◌, ◌^◌, Option, none, ◌||◌, if◌then◌else◌, ℕ, zero, suc, ◌+◌, ◌-◌, ◌<◌, ◌≤◌, ◌≡◌, ◌≢◌,
  refl, sym, ap, ◌∙◌, Bool, false, some, List, [], ◌∷◌, ◌++◌, ◌==◌, leb, length, take, drop, arith,
  All, length-drop, length-append, append_assoc, take-append-drop, drop-append-short, Bool-cases,
  leb→le, inl, inr, true,
}
use rfx.Sock.{
  Call, moves, interrupted, again, fails, count, failed, waiting, Io, iov_bytes, take_off, sent,
  retry, writev_loop,
}

-- No entry is empty.
abbrev pub Filled : List (List ℕ) → Type 0
Filled iov = All (λ v. 0 < length v) iov

drop-append-long : (n : ℕ) (v x : List ℕ) → length v ≤ n → drop n (v ++ x) ≡ drop (n - length v) x
drop-append-long n [] x h = ap (λ k. drop k x) (omega arith)
drop-append-long zero (b ∷ v) x h = absurd (omega arith)
drop-append-long (suc n) (b ∷ v) x h =
    drop-append-long n v x (omega arith) ∙ ap (λ k. drop k x) (omega arith)

-- What is taken off an iovec is the first part of its bytes.
take_off_lem :
    (n : ℕ) (iov : List (List ℕ))
    → n ≤ length (iov_bytes iov)
    → Filled iov
    → (iov' : List (List ℕ)) × (take_off n iov ≡ some iov')
      × (iov_bytes iov' ≡ drop n (iov_bytes iov))
      × Filled iov'
unfolding take_off
take_off_lem zero [] h a = ([], refl, refl, tt)
take_off_lem (suc n) [] h a = absurd (omega arith)
take_off_lem zero (v ∷ iov) h a = (v ∷ iov, ground arith, refl, a)
take_off_lem (suc n) (v ∷ iov) h a = elim (Bool-cases (leb (length v) (suc n))) [
  | inl e ↦
      let l : length v ≤ suc n = leb→le (length v) (suc n) e in
      let (iov', run, bs, f) =
        take_off_lem (suc n - length v) iov (omega (arith, l, h, length-append v (iov_bytes iov)))
          a.1 in
      (iov', ground (arith, e, run), bs ∙ sym (drop-append-long (suc n) v (iov_bytes iov) l), f)
  | inr e ↦
      let l : suc n < length v = ground (arith, e) in
      (
        drop (suc n) v ∷ iov,
        ground (arith, e),
        sym (drop-append-short (suc n) v (iov_bytes iov) (omega (arith, l))),
        (omega (arith, length-drop (suc n) v, l), a.1),
      )
]

-- A call that moves a byte, or fails.
abbrev counts : Call → ℕ
counts (moves n ready) = if n == 0 then 0 else 1
counts interrupted = 0
counts (again ready) = 0
counts fails = 1

abbrev pub useful : List Call → ℕ
useful [] = 0
useful (c ∷ cs) = counts c + useful cs

-- What was written is the first part, and all of it if a count is returned, which is that of the
-- bytes, behind those that were counted before. The loop does not go on waiting if more calls count
-- than there are bytes.
pub record Wrote (nwritten : ℕ) (cs : List Call) (iov : List (List ℕ)) (r : Io) : Type 0 where
  pub rest : List ℕ
  pub prefix : iov_bytes iov ≡ r.bytes ++ rest
  pub whole : (k : ℕ) → r.result ≡ count k → (rest ≡ []) × (k ≡ nwritten + length (iov_bytes iov))
  pub ends : length (iov_bytes iov) < useful cs → r.result ≢ waiting

none_written :
    (n : ℕ) (cs : List Call) (iov : List (List ℕ)) (r : Io)
    → r.bytes ≡ []
    → ((k : ℕ) → r.result ≢ count k)
    → (length (iov_bytes iov) < useful cs → r.result ≢ waiting)
    → Wrote n cs iov r
none_written n cs iov r e no_count ends = record {
  ends = ends;
  rest = iov_bytes iov;
  prefix = ap (λ b. b ++ iov_bytes iov) (sym e);
  whole = λ k q. absurd (no_count k q);
}

count-injective : (j k : ℕ) → count j ≡ count k → j ≡ k
count-injective j k e = ap (λ r. elim r [ count n ↦ n | failed ↦ 0 | waiting ↦ 0 ]) e

-- A write of the first `k` bytes, and what follows it.
sent-Wrote :
    (n k : ℕ) (c : Call) (cs : List Call) (iov iov' : List (List ℕ)) (r : Io)
    → 0 < k
    → counts c ≤ 1
    → k ≤ length (iov_bytes iov)
    → iov_bytes iov' ≡ drop k (iov_bytes iov)
    → Wrote (n + k) cs iov' r
    → Wrote n (c ∷ cs) iov (record r { bytes = take k (iov_bytes iov) ++ r.bytes })
sent-Wrote n k c cs iov iov' r pos one le e w = record {
  ends = λ lt. w.ends (omega (arith, lt, pos, one, ap length e, length-drop k (iov_bytes iov), le));
  rest = w.rest;
  prefix =
      sym (take-append-drop k (iov_bytes iov))
      ∙ ap (λ d. take k (iov_bytes iov) ++ d) (sym e ∙ w.prefix)
      ∙ sym (append_assoc (take k (iov_bytes iov)) r.bytes w.rest);
  whole = λ j q.
      let (z, m) = w.whole j q in
      (z, omega (arith, m, ap length e, length-drop k (iov_bytes iov), le));
}

-- A call that gives nothing and is made again.
skipped-Wrote :
    (n : ℕ) (c : Call) (cs : List Call) (iov : List (List ℕ)) (r : Io)
    → counts c ≡ 0
    → Wrote n cs iov r
    → Wrote n (c ∷ cs) iov r
skipped-Wrote n c cs iov r z w = record {
  rest = w.rest;
  prefix = w.prefix;
  whole = w.whole;
  ends = λ lt. w.ends (omega (arith, lt, z));
}

-- What the loop gives, if the bytes and those that were counted before fit in an int.
Run : Bool → Errno → ℕ → List Call → List (List ℕ) → Type 0
Run busy errno n cs iov = (r : Io) × (writev_loop busy errno n cs iov ≡ some r) × Wrote n cs iov r

module _ (busy : Bool) (errno : Errno) (n : ℕ) (v : List ℕ) (iov : List (List ℕ)) (ready : Bool)
    (cs : List Call) where
  -- What follows a `writev` that took `k` bytes, as the int `bytes`.
  abbrev follows : ℕ → ℕ → Option Io
  follows k bytes =
      if bytes == 0 || leb (2 ^ 31) bytes
      then (if retry busy ready errno
          then sent (take k (iov_bytes (v ∷ iov))) (writev_loop busy errno n cs (v ∷ iov))
          else some (record { result = failed; bytes = take k (iov_bytes (v ∷ iov)); left = cs }))
      else if leb (2 ^ 31) (n + bytes)
      then none
      else (elim (take_off bytes (v ∷ iov)) [
        | none ↦ none
        | some iov' ↦
            sent (take k (iov_bytes (v ∷ iov))) (writev_loop busy errno (n + bytes) cs iov')
      ])

  moves_follows :
      (m k : ℕ)
      → min m (length (iov_bytes (v ∷ iov))) ≡ k
      → k < 2 ^ 31
      → writev_loop busy errno n (moves m ready ∷ cs) (v ∷ iov) ≡ follows k k
  unfolding writev_loop
  moves_follows m k e lt =
      let whole : k % 2 ^ 32 ≡ k = omega (arith, lt) in
      ap (λ x. follows x (x % 2 ^ 32)) e ∙ ap (follows k) whole

  moves_run :
      (k : ℕ) (iov' : List (List ℕ)) (r : Io)
      → (k == 0) ≡ false
      → n + k < 2 ^ 31
      → take_off k (v ∷ iov) ≡ some iov'
      → writev_loop busy errno (n + k) cs iov' ≡ some r
      → follows k k ≡ some (record r { bytes = take k (iov_bytes (v ∷ iov)) ++ r.bytes })
  moves_run k iov' r z lt off run =
      let a : leb (2 ^ 31) k ≡ false = ground (arith, lt) in
      let b : leb (2 ^ 31) (n + k) ≡ false = ground (arith, lt) in rw (z, a, b, off, run)

  -- A call that gave nothing: the loop goes on, or fails.
  nothing-Run :
      (c : Call) (k : ℕ)
      → (k == 0) ≡ true
      → counts c ≡ 0
      → Run busy errno n cs (v ∷ iov)
      → (r : Io) × (follows k k ≡ some r) × Wrote n (c ∷ cs) (v ∷ iov) r
  unfolding Run
  nothing-Run c k z u (r, run, w) = elim (Bool-cases (retry busy ready errno)) [
    | inl y ↦
        (r, ap (λ x. follows x x) zeroed ∙ rw (y, run) refl, skipped-Wrote n c cs (v ∷ iov) r u w)
    | inr y ↦
        let failure : Io = record { result = failed; bytes = []; left = cs } in
        (
          failure,
          ap (λ x. follows x x) zeroed ∙ rw y refl,
          none_written n (c ∷ cs) (v ∷ iov) failure refl (λ j e. cc) (λ lt e. cc),
        )
  ]
    where
      zeroed : k ≡ 0
      zeroed = ground (arith, z)

-- A call that moves nothing of an iovec with bytes has no room.
idle :
    (m : ℕ) (ready : Bool) (v : List ℕ) (iov : List (List ℕ))
    → Filled (v ∷ iov)
    → min m (length (iov_bytes (v ∷ iov))) ≡ 0
    → counts (moves m ready) ≡ 0
idle m ready v iov a e =
    let l = length-append v (iov_bytes iov) in
    let z : m ≡ 0 = omega (arith, e, a.0, l) in ground (arith, z)

at_most : (m : ℕ) (ready : Bool) → counts (moves m ready) ≤ 1
at_most m ready = ground arith

loop_Run :
    (busy : Bool) (errno : Errno) (n : ℕ) (cs : List Call) (iov : List (List ℕ))
    → Filled iov
    → n + length (iov_bytes iov) < 2 ^ 31
    → Run busy errno n cs iov
unfolding writev_loop Run
loop_Run busy errno n cs [] a lt = (
  record { result = count n; bytes = []; left = cs },
  refl,
  record {
    rest = [];
    prefix = refl;
    whole = λ k e. (refl, omega (arith, count-injective n k e));
    ends = λ l e. cc;
  },
)
loop_Run busy errno n [] (v ∷ iov) a lt =
    (_, refl, none_written n [] (v ∷ iov) _ refl (λ k e. cc) (λ l. absurd (omega (arith, l))))
loop_Run busy errno n (moves m ready ∷ cs) (v ∷ iov) a lt =
    let all = iov_bytes (v ∷ iov) in
    let k = min m (length all) in
    let follow = moves_follows busy errno n v iov ready cs m k refl (omega (arith, lt)) in
    elim (Bool-cases (k == 0)) [
      | inl z ↦
          let (r, run, w) =
            nothing-Run busy errno n v iov ready cs (moves m ready) k z
              (idle m ready v iov a (ground (arith, z)))
              (loop_Run busy errno n cs (v ∷ iov) a lt) in
          (r, follow ∙ run, w)
      | inr z ↦
          let (iov', off, bs, f) = take_off_lem k (v ∷ iov) (omega arith) a in
          let left = ap length bs in
          let (r, run, w) =
            loop_Run busy errno (n + k) cs iov' f (omega (arith, lt, left, length-drop k all)) in
          (
            record r { bytes = take k all ++ r.bytes },
            follow ∙ moves_run busy errno n v iov ready cs k iov' r z (omega (arith, lt)) off run,
            sent-Wrote n k (moves m ready) cs (v ∷ iov) iov' r (ground (arith, z)) (at_most m ready)
                (omega arith) bs w,
          )
    ]
loop_Run busy errno n (interrupted ∷ cs) (v ∷ iov) a lt =
    let (r, run, w) = loop_Run busy eintr n cs (v ∷ iov) a lt in
    (r, run, skipped-Wrote n interrupted cs (v ∷ iov) r refl w)
loop_Run true errno n (again ready ∷ cs) (v ∷ iov) a lt =
    let (r, run, w) = loop_Run true eagain n cs (v ∷ iov) a lt in
    (r, run, skipped-Wrote n (again ready) cs (v ∷ iov) r refl w)
loop_Run false errno n (again true ∷ cs) (v ∷ iov) a lt =
    let (r, run, w) = loop_Run false eagain n cs (v ∷ iov) a lt in
    (r, run, skipped-Wrote n (again true) cs (v ∷ iov) r refl w)
loop_Run false errno n (again false ∷ cs) (v ∷ iov) a lt =
    (_, refl, none_written n (again false ∷ cs) (v ∷ iov) _ refl (λ k e. cc) (λ l e. cc))
loop_Run busy errno n (fails ∷ cs) (v ∷ iov) a lt =
    (_, refl, none_written n (fails ∷ cs) (v ∷ iov) _ refl (λ k e. cc) (λ l e. cc))

-- On an iovec without empty entries, of fewer than 2 ^ 31 bytes in all, for every sequence of
-- `writev` calls and every errno before, `writev_full` and `writev_full_ms` give a result
-- without an access past the iovec or an overflow of their int: what they wrote is the first
-- part of its bytes, and a count that they return is that of all its bytes, all of which they
-- wrote; and they do not go on waiting if more calls move a byte or fail than there are bytes.
pub writev_loop_lem :
    (busy : Bool) (errno : Errno) (cs : List Call) (iov : List (List ℕ))
    → Filled iov
    → length (iov_bytes iov) < 2 ^ 31
    → (r : Io) × (writev_loop busy errno 0 cs iov ≡ some r) × Wrote 0 cs iov r
unfolding Run
writev_loop_lem busy errno cs iov a lt = loop_Run busy errno 0 cs iov a (omega (arith, lt))
